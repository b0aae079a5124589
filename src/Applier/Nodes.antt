-- ===== src/Applier/Nodes.antt =====
-- The commands on the nodes of the cluster and on the features of the state machine.
use databend_meta.Common.{
  ℕ, ◌≡◌, ◌∙◌, ap, arith, Bool, true, false, ◌&&◌, ◌||◌, Option, none, some, List, Text, is_none,
  text_eq, if◌then◌else◌, ◌==◌, Bool-cases, inl, inr,
}
use databend_meta.Common.Maps
use databend_meta.Types.Node.{Node}
use databend_meta.Types.SysData.{SysData}
use databend_meta.KvTransaction.Proto.{ProtoEnums}
use databend_meta.StateMachine.Api.{StateMachineApi}
use databend_meta.StateMachine.Laws.{SystemLaws}
use databend_meta.Applier.Response
use databend_meta.Applier.Response.{AppliedState}
use databend_meta.Applier.Defs.{Applier}
use databend_meta.Applier.Command.{
  nodes_of, update_sys_data, set_node, drop_node, toggle, apply_add_node, apply_remove_node,
  apply_set_feature,
}

module _ (api : StateMachineApi) (enums : ProtoEnums) (laws : SystemLaws api) where
  abbrev pub node_at : Applier api → ℕ → Option Node
  node_at a id = Maps.get (nodes_of api enums a) id

  nodes-update :
      (f : SysData → SysData) (a : Applier api)
      → nodes_of api enums (update_sys_data api enums f a) ≡ (f (api.sys_data a.sm)).nodes
  nodes-update f a = ap (λ d. d.nodes) (laws.sys_data-put (f (api.sys_data a.sm)) a.sm)

  -- Adding a node answers with the node of its id before and after; a node that is present is replaced only where the
  -- command says so, and the nodes of other ids stay.
  pub apply_add_node_lem :
      (id : ℕ) (node : Node) (overriding : Bool) (a : Applier api) (j : ℕ)
      → let (st, a') = apply_add_node api enums id node overriding a in
        (st ≡ Response.node (node_at a id) (node_at a' id))
        × (node_at a' j ≡ (
            if id == j && (is_none (node_at a id) || overriding) then some node else node_at a j))
  unfolding apply_add_node
  apply_add_node_lem id node overriding a j =
      let nodes = nodes_of api enums a in
      let set = nodes-update (set_node api enums id node) a in
      let self : Maps.get (Maps.insert nodes id node) id ≡ some node =
        ground (arith, Maps.get-insert nodes id id node) in
      elim (Bool-cases (is_none (Maps.get nodes id) || overriding)) [
        | inl e ↦ rw e (rw (set, self, Maps.get-insert nodes id j node) (ground arith))
        | inr e ↦ rw e (ground arith)
      ]

  -- Removing a node answers with the node of its id before, and with none after; the nodes of other ids stay.
  pub apply_remove_node_lem :
      (id : ℕ) (a : Applier api) (j : ℕ)
      → let (st, a') = apply_remove_node api enums id a in
        (st ≡ Response.node (node_at a id) (node_at a' id))
        × (node_at a' j ≡ (if id == j then none else node_at a j))
  unfolding apply_remove_node
  apply_remove_node_lem id a j =
      let nodes = nodes_of api enums a in
      let drop = nodes-update (drop_node api enums id) a in
      let self : Maps.get (Maps.remove nodes id) id ≡ none =
        ground (arith, Maps.get-remove nodes id id) in
      rw (drop, self, Maps.get-remove nodes id j) (ground arith)

  abbrev pub features_of : Applier api → List Text
  features_of a = (api.sys_data a.sm).sm_features

  features-update :
      (f : SysData → SysData) (a : Applier api)
      → features_of (update_sys_data api enums f a) ≡ (f (api.sys_data a.sm)).sm_features
  features-update f a = ap (λ d. d.sm_features) (laws.sys_data-put (f (api.sys_data a.sm)) a.sm)

  insert-if : (b c : Bool) → (b || c) ≡ (if b then true else c)
  insert-if b c = ground arith

  -- Setting a feature switches that feature on or off, as it is told, and no other.
  pub apply_set_feature_lem :
      (feature : Text) (enable : Bool) (a : Applier api) (other : Text)
      → Maps.contains (features_of (apply_set_feature api enums feature enable a).1) other
        ≡ (if text_eq feature other then enable else Maps.contains (features_of a) other)
  unfolding apply_set_feature
  apply_set_feature_lem feature true a other =
      ap (λ l. Maps.contains l other) (features-update (toggle api enums feature true) a)
      ∙ Maps.contains-insert_text (features_of a) feature other
      ∙ insert-if (text_eq feature other) (Maps.contains (features_of a) other)
  apply_set_feature_lem feature false a other =
      ap (λ l. Maps.contains l other) (features-update (toggle api enums feature false) a)
      ∙ Maps.contains-remove_text (features_of a) feature other
