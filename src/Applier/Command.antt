-- ===== src/Applier/Command.antt =====
-- `apply_cmd` and `apply`: one log entry.
use databend_meta.Common.{
  ℕ, Bool, true, false, ◌||◌, Option, none, some, List, [], ◌∷◌, Text, Bytes, ok, Action, and_then,
  if◌then◌else◌, is_none, unwrap_or,
}
use databend_meta.Common.Maps
use databend_meta.Types.Node.{Node}
use databend_meta.Types.Upsert.{UpsertKv}
use databend_meta.Types.Change
use databend_meta.Types.SeqV.{SeqV}
use databend_meta.Types.SysData.{LogId, Membership, SysData}
use databend_meta.Types.CmdContext.{from_millis_and_log_id}
use databend_meta.KvTransaction.Defs.{Transaction}
use databend_meta.KvTransaction.Proto.{ProtoEnums, TxnRequest}
use databend_meta.KvTransaction.Convert.{transaction_from_txn_request}
use databend_meta.StateMachine.Api.{StateMachineApi, Event}
use databend_meta.Applier.Response
use databend_meta.Applier.Response.{AppliedState}
use databend_meta.Applier.Defs.{Applier, upsert_kv, ◌>>=◌, pure}
use databend_meta.Applier.Transaction.{apply_kv_transaction}
use databend_meta.Applier.Clean.{clean_expired_kvs}

-- `Cmd` of crates/server/types/src/cmd/mod.rs
pub data Cmd : Type 0 where
  add_node : ℕ → Node → Bool → Cmd
  remove_node : ℕ → Cmd
  set_feature : Text → Bool → Cmd
  upsert : UpsertKv → Cmd
  transaction : TxnRequest → Cmd
  kv_transaction : Transaction → Cmd

-- `LogEntry`: a command and the time at which it was proposed
pub record LogEntry : Type 0 where
  pub time_ms : Option ℕ
  pub cmd : Cmd

-- `Entry` and `EntryPayload` of the crate openraft
pub data EntryPayload : Type 0 where
  blank : EntryPayload
  normal : LogEntry → EntryPayload
  membership : Membership → EntryPayload

pub record Entry : Type 0 where
  pub log_id : LogId
  pub payload : EntryPayload

-- An entry without a time counts as time 0.
abbrev pub time_of : EntryPayload → ℕ
time_of blank = 0
time_of (normal entry) = unwrap_or entry.time_ms 0
time_of (membership members) = 0

unfoldable pub get_log_time : Entry → ℕ
get_log_time entry = time_of entry.payload

module _ (api : StateMachineApi) (enums : ProtoEnums) where
  open api use {State, sys_data, put_sys_data, on_change_applied}

  -- `with_sys_data`
  abbrev pub update_sys_data : (SysData → SysData) → Applier api → Applier api
  update_sys_data f a = record a { sm = put_sys_data (f (sys_data a.sm)) a.sm }

  abbrev pub nodes_of : Applier api → List (ℕ × Node)
  nodes_of a = (sys_data a.sm).nodes

  abbrev pub set_node : ℕ → Node → SysData → SysData
  set_node id node d = record d { nodes = Maps.insert d.nodes id node }

  unfoldable pub apply_add_node : ℕ → Node → Bool → Applier api → AppliedState × Applier api
  apply_add_node id node overriding a =
      let prev = Maps.get (nodes_of a) id in
      if is_none prev || overriding
      then (Response.node prev (some node), update_sys_data (set_node id node) a)
      else (Response.node prev prev, a)

  abbrev pub drop_node : ℕ → SysData → SysData
  drop_node id d = record d { nodes = Maps.remove d.nodes id }

  unfoldable pub apply_remove_node : ℕ → Applier api → AppliedState × Applier api
  apply_remove_node id a =
      (Response.node (Maps.get (nodes_of a) id) none, update_sys_data (drop_node id) a)

  abbrev pub toggle : Text → Bool → SysData → SysData
  toggle feature true d = record d { sm_features = Maps.insert_text d.sm_features feature }
  toggle feature false d = record d { sm_features = Maps.remove_text d.sm_features feature }

  unfoldable pub apply_set_feature : Text → Bool → Applier api → AppliedState × Applier api
  apply_set_feature feature enable a = (Response.nothing, update_sys_data (toggle feature enable) a)

  abbrev pub kv_reply : Option (SeqV Bytes) × Option (SeqV Bytes) → AppliedState
  kv_reply (prev, result) = Response.kv (Change.new prev result)

  unfoldable pub apply_upsert_kv : UpsertKv → Action (Applier api) AppliedState
  unfolding upsert_kv Change.new
  apply_upsert_kv u = do changed ← upsert_kv api u; pure (kv_reply changed)

  abbrev pub returns :
      (Applier api → AppliedState × Applier api) → Action (Applier api) AppliedState
  returns f a = let (st, a') = f a in (ok st, a')

  unfoldable pub apply_cmd : Cmd → Action (Applier api) AppliedState
  unfolding apply_add_node apply_remove_node apply_set_feature apply_upsert_kv apply_kv_transaction
      transaction_from_txn_request
  apply_cmd (add_node id node overriding) = returns (apply_add_node id node overriding)
  apply_cmd (remove_node id) = returns (apply_remove_node id)
  apply_cmd (set_feature feature enable) = returns (apply_set_feature feature enable)
  apply_cmd (upsert u) = apply_upsert_kv u
  apply_cmd (transaction txn) = do
    reply ← apply_kv_transaction api (transaction_from_txn_request enums txn)
    pure (Response.kv_transaction_reply reply)
  apply_cmd (kv_transaction txn) = do
    reply ← apply_kv_transaction api txn
    pure (Response.kv_transaction_reply reply)

  abbrev pub set_last_applied : LogId → SysData → SysData
  set_last_applied log_id d = record d { last_applied = some log_id }

  abbrev pub set_membership : LogId → Membership → SysData → SysData
  set_membership log_id members d = record d {
    last_membership = record { log_id = some log_id; membership = members };
  }

  unfoldable pub apply_payload : LogId → EntryPayload → Action (Applier api) AppliedState
  unfolding apply_cmd
  apply_payload log_id blank a = (ok Response.nothing, a)
  apply_payload log_id (normal entry) a = apply_cmd entry.cmd a
  apply_payload log_id (membership members) a =
      (ok Response.nothing, update_sys_data (set_membership log_id members) a)

  -- the loop over `changes.drain(..)`
  unfoldable pub publish : List Event → State → State
  publish [] s = s
  publish (e ∷ es) s = publish es (on_change_applied e s)

  abbrev pub drain_changes : AppliedState → Action (Applier api) AppliedState
  drain_changes st a = (ok st, record a { sm = publish a.changes a.sm; changes = [] })

  unfoldable pub apply : Entry → Action (Applier api) AppliedState
  unfolding from_millis_and_log_id get_log_time clean_expired_kvs apply_payload publish
  apply entry a =
      let log_time = get_log_time entry in
      let start = record a { cmd_ctx = from_millis_and_log_id log_time entry.log_id } in
      and_then (clean_expired_kvs api log_time start) λ _ cleaned.
        and_then
          (apply_payload entry.log_id entry.payload
            (update_sys_data (set_last_applied entry.log_id) cleaned))
          drain_changes
