-- ===== src/Service/Leader.antt =====
-- `join` and `leave` of crates/server/service/src/meta_service/meta_leader.rs. Raft is a third-party crate: a write of a log
-- entry and a change of the membership lead from one state of the cluster to the next, and may fail.
use databend_meta.Common.{
  ℕ, Bool, true, false, ◌||◌, ◌&&◌, Option, none, some, List, [], ◌∷◌, Text, ◌==◌, if◌then◌else◌,
  unwrap_or, length, text_eq, not,
}
use databend_meta.Common.Decimal.{digits}
use databend_meta.Types.Node.{Node, Endpoint, new_node, with_grpc_advertise_address}
use databend_meta.Types.SysData.{Membership}
use databend_meta.Applier.Command.{Cmd, LogEntry, add_node, remove_node}

pub record JoinRequest : Type 0 where
  pub node_id : ℕ
  pub endpoint : Endpoint
  pub grpc_api_advertise_address : Option Text
  pub role : Option Text

-- "voter" and "learner"
abbrev pub voter : Text
voter = 118 ∷ 111 ∷ 116 ∷ 101 ∷ 114 ∷ []

abbrev pub learner : Text
learner = 108 ∷ 101 ∷ 97 ∷ 114 ∷ 110 ∷ 101 ∷ 114 ∷ []

unfoldable pub role_of : JoinRequest → Text
role_of req = unwrap_or req.role voter

-- `ChangeMembers` of openraft, as far as it is used
pub data ChangeMembers : Type 0 where
  add_voters add_nodes remove_voters remove_nodes : ℕ → ChangeMembers

-- The membership that raft works with, the one that is applied, and the nodes of the state machine
pub record Cluster : Type 0 where
  pub effective : Membership
  pub applied : Membership
  pub nodes : List (ℕ × Node)

pub record Raft (Error : Type 0) : Type 0 where
  pub client_write : LogEntry → Cluster → Cluster × Option Error
  pub change_membership : ChangeMembers → Cluster → Cluster × Option Error

abbrev pub has_id : ℕ → List ℕ → Bool
has_id n [] = false
has_id n (m ∷ ms) = m == n || has_id n ms

abbrev pub is_voter : ℕ → List (List ℕ) → Bool
is_voter n [] = false
is_voter n (config ∷ configs) = has_id n config || is_voter n configs

abbrev pub last_config : List (List ℕ) → Option (List ℕ)
last_config [] = none
last_config (config ∷ []) = some config
last_config (config ∷ next ∷ configs) = last_config (next ∷ configs)

-- The states that are passed, one after each call of raft, and what is returned
pub data Finished (Error : Type 0) : Type 0 where
  done : Finished Error
  failed : Error → Finished Error
  leave_via_self : Finished Error
  panics : Finished Error

abbrev pub finished : {Error : Type 0} → Option Error → Finished Error
finished none = done
finished (some e) = failed e

-- A call, and a second one if the first succeeds
abbrev pub second :
    {Error : Type 0}
    → (Cluster → Cluster × Option Error)
    → Cluster × Option Error
    → List Cluster × Finished Error
second f (c, some e) = (c ∷ [], failed e)
second f (c, none) = let (c', e) = f c in (c ∷ c' ∷ [], finished e)

abbrev pub joining_node : JoinRequest → Node
unfolding digits new_node with_grpc_advertise_address
joining_node req =
    with_grpc_advertise_address (new_node (digits 20 req.node_id) req.endpoint)
      req.grpc_api_advertise_address

abbrev pub join_message : JoinRequest → ChangeMembers
unfolding role_of
join_message req =
    if text_eq (role_of req) learner then add_nodes req.node_id else add_voters req.node_id

abbrev pub leave_message : ℕ → Membership → ChangeMembers
leave_message node_id membership =
    if is_voter node_id membership.configs then remove_voters node_id else remove_nodes node_id

-- `can_leave`: the last node may not leave; without a config the code panics.
unfoldable pub can_leave : ℕ → Cluster → Option Bool
can_leave node_id c = elim (last_config c.applied.configs) [
  | none ↦ none
  | some config ↦ some (not (has_id node_id config && length config == 1))
]

abbrev pub leave_if :
    {Error : Type 0} → Option Bool → List Cluster × Finished Error → List Cluster × Finished Error
leave_if none leaving = ([], panics)
leave_if (some false) leaving = ([], done)
leave_if (some true) leaving = leaving

module _ {Error : Type 0} (raft : Raft Error) (now : ℕ) where
  unfoldable pub write : Cmd → Cluster → Cluster × Option Error
  write cmd c = raft.client_write (record { time_ms = some now; cmd = cmd }) c

  unfoldable pub join : JoinRequest → Cluster → List Cluster × Finished Error
  unfolding write joining_node join_message
  join req c =
      let joined =
        second (raft.change_membership (join_message req))
          (write (add_node req.node_id (joining_node req) false) c) in
      if is_voter req.node_id c.effective.configs then ([], done) else joined

  abbrev pub left : ℕ → Cluster → List Cluster × Finished Error
  unfolding write
  left node_id c =
      second (write (remove_node node_id))
        (raft.change_membership (leave_message node_id c.applied) c)

  -- `id` is that of the leader.
  unfoldable pub leave : ℕ → ℕ → Cluster → List Cluster × Finished Error
  unfolding write can_leave
  leave id node_id c =
      let leaving = leave_if (can_leave node_id c) (left node_id c) in
      if node_id == id then ([], leave_via_self) else leaving
