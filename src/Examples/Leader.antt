-- ===== src/Examples/Leader.antt =====
-- A raft that applies what it is given at once, and node 2 that joins node 1.
use databend_meta.Common.{
  ℕ, ◌≡◌, ◌≢◌, refl, sym, subst, Bool, true, false, none, List, [], ◌∷◌, All, arith, ◌⊎◌, inl, inr,
  ◌==◌, if◌then◌else◌, Text,
}
use databend_meta.Types.Node.{Node, new_node}
use databend_meta.Types.SysData.{Membership}
use databend_meta.Applier.Command.{Cmd, add_node, remove_node}
use databend_meta.Service.Leader.{
  JoinRequest, ChangeMembers, add_voters, add_nodes, remove_voters, remove_nodes, Cluster, Raft,
  has_id, join, leave,
}
use databend_meta.Service.Members.{has_node, IsMember, MembersKnown, RaftLaws, calls-MembersKnown}

abbrev drop_id : ℕ → List ℕ → List ℕ
drop_id n [] = []
drop_id n (m ∷ ms) = let rest = drop_id n ms in if m == n then rest else m ∷ rest

abbrev drop_node : ℕ → List (ℕ × Node) → List (ℕ × Node)
drop_node n [] = []
drop_node n ((m, node) ∷ nodes) =
    let rest = drop_node n nodes in if m == n then rest else (m, node) ∷ rest

has_id-drop_id : (n id : ℕ) (ms : List ℕ) → has_id n (drop_id id ms) ≡ true → has_id n ms ≡ true
has_id-drop_id n id [] h = h
has_id-drop_id n id (m ∷ ms) h = ground (arith, has_id-drop_id n id ms)

drop_id_lem : (id : ℕ) (ms : List ℕ) → ¬ (has_id id (drop_id id ms) ≡ true)
drop_id_lem id [] h = absurd (ground arith)
drop_id_lem id (m ∷ ms) h = ground (arith, drop_id_lem id ms)

has_node-drop_node :
    (n id : ℕ) (nodes : List (ℕ × Node))
    → id ≢ n
    → has_node n nodes ≡ true
    → has_node n (drop_node id nodes) ≡ true
has_node-drop_node n id [] ne h = h
has_node-drop_node n id ((m, node) ∷ nodes) ne h = ground (arith, has_node-drop_node n id nodes ne)

abbrev applies : Cmd → List (ℕ × Node) → List (ℕ × Node)
applies (add_node id node o) nodes = (id, node) ∷ nodes
applies (remove_node id) nodes = drop_node id nodes
applies _ nodes = nodes

abbrev members : ChangeMembers → List ℕ → List ℕ
members (add_voters id) ms = id ∷ ms
members (add_nodes id) ms = id ∷ ms
members (remove_voters id) ms = drop_id id ms
members (remove_nodes id) ms = drop_id id ms

-- Every member votes here.
abbrev changed : ChangeMembers → Membership → Membership
changed m membership = record {
  configs = members m membership.nodes ∷ [];
  nodes = members m membership.nodes;
}

abbrev at_once : Raft Text
at_once = record {
  client_write = λ entry c. (record c { nodes = applies entry.cmd c.nodes }, none);
  change_membership =
      λ m c. (record c { effective = changed m c.effective; applied = changed m c.applied }, none);
}

added :
    (id n : ℕ) (is_learner : Bool) (ms : List ℕ)
    → has_id n (members (if is_learner then add_nodes id else add_voters id) ms) ≡ true
    → (n ≡ id) ⊎ (has_id n ms ≡ true)
added id n true ms h = ground arith
added id n false ms h = ground arith

removed :
    (id n : ℕ) (voter : Bool) (ms : List ℕ)
    → has_id n (members (if voter then remove_voters id else remove_nodes id) ms) ≡ true
    → (has_id n ms ≡ true) × (id ≢ n)
removed id n true ms h = (
  has_id-drop_id n id ms h,
  λ e. drop_id_lem id ms (subst (λ k. has_id k (drop_id id ms) ≡ true) (sym e) h),
)
removed id n false ms h = (
  has_id-drop_id n id ms h,
  λ e. drop_id_lem id ms (subst (λ k. has_id k (drop_id id ms) ≡ true) (sym e) h),
)

or_before :
    (n id : ℕ) (c : Cluster)
    → (n ≡ id) ⊎ (has_id n c.effective.nodes ≡ true)
    → (n ≡ id) ⊎ IsMember n c
or_before n id c (inl e) = inl e
or_before n id c (inr h) = inr (inl h)

or_applied :
    (n id : ℕ) (c : Cluster)
    → (n ≡ id) ⊎ (has_id n c.applied.nodes ≡ true)
    → (n ≡ id) ⊎ IsMember n c
or_applied n id c (inl e) = inl e
or_applied n id c (inr h) = inr (inr h)

at_once-RaftLaws : RaftLaws at_once
at_once-RaftLaws = record {
  write-members = λ entry c n h. h;
  add_node-keeps = λ t id n node o c h. ground arith;
  add_node-adds = λ t id node o c e. ground arith;
  remove_node-keeps = λ t id n c ne h. has_node-drop_node n id c.nodes ne h;
  change-nodes = λ m c. refl;
  add-members = λ id n is_learner c h. elim h [
    | inl e ↦ or_before n id c (added id n is_learner c.effective.nodes e)
    | inr a ↦ or_applied n id c (added id n is_learner c.applied.nodes a)
  ];
  remove-members = λ id n voter c h. elim h [
    | inl e ↦ inl (removed id n voter c.effective.nodes e).0
    | inr a ↦ inr (removed id n voter c.applied.nodes a).0
  ];
  remove-removes = λ id voter c e h. elim h [
    | inl m ↦ (removed id id voter c.effective.nodes m).1 refl
    | inr m ↦ (removed id id voter c.applied.nodes m).1 refl
  ];
}

abbrev one_node : Cluster
unfolding new_node
one_node = record {
  effective = record { configs = (1 ∷ []) ∷ []; nodes = 1 ∷ [] };
  applied = record { configs = (1 ∷ []) ∷ []; nodes = 1 ∷ [] };
  nodes = (1, new_node (49 ∷ []) (record { addr = 120 ∷ []; port = 9 })) ∷ [];
}

one_node-MembersKnown : MembersKnown one_node
unfolding one_node
one_node-MembersKnown n (inl h) = ground arith
one_node-MembersKnown n (inr h) = ground arith

calls-MembersKnown_example :
    ((req : JoinRequest) → All MembersKnown (join at_once 1000 req one_node).0)
    × ((id node_id : ℕ) → All MembersKnown (leave at_once 1000 id node_id one_node).0)
calls-MembersKnown_example =
    calls-MembersKnown at_once at_once-RaftLaws 1000 one_node one_node-MembersKnown
