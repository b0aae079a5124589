-- ===== src/LogEntry/Convert.antt =====
-- Commands and entries to messages and back (`PbLogEntryExt`), with the conversions of node_ext.rs, log_id_ext.rs and
-- membership_ext.rs in crates/common/proto/src/proto_ext.
use databend_meta.Common.{
  ℕ, ◌%◌, ◌^◌, true, false, Option, none, some, List, [], ◌∷◌, map, Text, Bytes, option_map,
  if◌then◌else◌, ltb, ◌==◌,
}
use databend_meta.Types.Interval
use databend_meta.Types.Interval.{Interval}
use databend_meta.Types.MetaSpec
use databend_meta.Types.MetaSpec.{MetaSpec}
use databend_meta.Types.Upsert
use databend_meta.Types.Upsert.{UpsertKv, Operation, MatchSeq}
use databend_meta.Types.Node.{Node, new_node, new_endpoint, with_grpc_advertise_address}
use databend_meta.Types.SysData.{LogId, Membership}
use databend_meta.KvTransaction.Proto.{ProtoEnums}
use databend_meta.KvTransaction.Convert.{transaction_from_pb, transaction_to_pb}
use databend_meta.Applier.Command
use databend_meta.Applier.Command.{Cmd, LogEntry, Entry, EntryPayload}
use databend_meta.LogEntry.Proto

-- The `String` errors, by their messages; that of a membership is openraft's.
pub data ConvertError : Type 0 where
  missing_log_id missing_node missing_seq missing_vote : ConvertError
  bad_membership : Text → ConvertError

pub data Converted {ℓ} (A : Type ℓ) : Type ℓ where
  ok : A → Converted A
  err : ConvertError → Converted A

infixl 5 ◌>>=◌
abbrev pub ◌>>=◌ {ℓ κ} : {A : Type ℓ} {B : Type κ} → Converted A → (A → Converted B) → Converted B
ok a >>= f = f a
err e >>= f = err e

-- `ok_or_else`
abbrev pub ok_or {ℓ} : {A : Type ℓ} → Option A → ConvertError → Converted A
ok_or none e = err e
ok_or (some a) e = ok a

unfoldable pub log_id_to_pb : LogId → Proto.LogId
log_id_to_pb id = record { term = id.term; node_id = id.node_id; index = id.index }

unfoldable pub log_id_from_pb : Proto.LogId → LogId
log_id_from_pb id = record { term = id.term; node_id = id.node_id; index = id.index }

-- `port as u32`
unfoldable pub from_node : Node → Proto.Node
from_node n = record {
  name = n.name;
  addr = n.endpoint.addr;
  port = n.endpoint.port % 2 ^ 32;
  grpc_api_advertise_address = n.grpc_api_advertise_address;
}

-- `port as u16`
unfoldable pub to_node : Proto.Node → Node
unfolding new_node new_endpoint with_grpc_advertise_address
to_node n =
    with_grpc_advertise_address (new_node n.name (new_endpoint n.addr (n.port % 2 ^ 16)))
      n.grpc_api_advertise_address

-- A new element of a `BTreeSet<u64>`, in ascending order.
unfoldable pub add_to_set : ℕ → List ℕ → List ℕ
add_to_set n [] = n ∷ []
add_to_set n (m ∷ ms) =
    if n == m then m ∷ ms else if ltb n m then n ∷ m ∷ ms else m ∷ add_to_set n ms

-- `collect()` into a `BTreeSet`
unfoldable pub to_set : List ℕ → List ℕ
unfolding add_to_set
to_set [] = []
to_set (n ∷ ns) = add_to_set n (to_set ns)

unfoldable pub membership_to_pb : Membership → Proto.Membership
membership_to_pb m = record {
  configs = map (λ (g : List ℕ). record { node_ids = g }) m.configs;
  nodes = m.nodes;
}

unfoldable pub match_seq_to_pb : MatchSeq → Proto.MatchSeq
match_seq_to_pb Upsert.any = record { ge = true; value = 0 }
match_seq_to_pb (Upsert.exact n) = record { ge = false; value = n }
match_seq_to_pb (Upsert.ge n) = record { ge = true; value = n }

unfoldable pub match_seq_from_pb : Proto.MatchSeq → MatchSeq
match_seq_from_pb p = if p.ge then Upsert.ge p.value else Upsert.exact p.value

-- `none` is the panic on the deprecated `AsIs`.
unfoldable pub value_to_pb : Operation Bytes → Option (Option Bytes)
value_to_pb (Upsert.update v) = some (some v)
value_to_pb Upsert.delete = some none
value_to_pb Upsert.as_is = none

unfoldable pub value_from_pb : Option Bytes → Operation Bytes
value_from_pb (some v) = Upsert.update v
value_from_pb none = Upsert.delete

abbrev pub spec_to_pb : Option MetaSpec → Option ℕ × Option ℕ
spec_to_pb (some m) = (m.expire_at, option_map (λ (i : Interval). i.millis) m.ttl)
spec_to_pb none = (none, none)

abbrev pub spec_from_pb : Option ℕ → Option ℕ → Option MetaSpec
spec_from_pb none none = none
spec_from_pb expire_at ttl_ms =
    some (MetaSpec.new expire_at (option_map Interval.from_millis ttl_ms))

unfoldable pub upsert_kv_to_pb : UpsertKv → Option Proto.CmdUpsertKv
unfolding match_seq_to_pb value_to_pb
upsert_kv_to_pb u =
    option_map
      (λ (v : Option Bytes). record {
        key = u.key;
        seq = some (match_seq_to_pb u.seq);
        value = v;
        expire_at = (spec_to_pb u.value_meta).0;
        ttl_ms = (spec_to_pb u.value_meta).1;
      })
      (value_to_pb u.value)

unfoldable pub upsert_kv_from_pb : Proto.CmdUpsertKv → Converted UpsertKv
unfolding match_seq_from_pb value_from_pb MetaSpec.new Interval.from_millis
upsert_kv_from_pb p = ok_or p.seq missing_seq >>= λ seq. ok (record {
  key = p.key;
  seq = match_seq_from_pb seq;
  value = value_from_pb p.value;
  value_meta = spec_from_pb p.expire_at p.ttl_ms;
})

unfoldable pub cmd_to_pb : Cmd → Option Proto.Cmd
unfolding from_node upsert_kv_to_pb transaction_to_pb
cmd_to_pb (Command.add_node id node overriding) = some (
    Proto.add_node (record { node_id = id; node = some (from_node node); overriding = overriding }))
cmd_to_pb (Command.remove_node id) = some (Proto.remove_node (record { node_id = id }))
cmd_to_pb (Command.set_feature feature enable) =
    some (Proto.set_feature (record { feature = feature; enable = enable }))
cmd_to_pb (Command.upsert u) = option_map Proto.upsert_kv (upsert_kv_to_pb u)
cmd_to_pb (Command.transaction txn) = some (Proto.transaction txn)
cmd_to_pb (Command.kv_transaction txn) = some (Proto.kv_transaction (transaction_to_pb txn))

abbrev pub payload_to_pb : Proto.LogId → EntryPayload → Option Proto.LogEntry
payload_to_pb id Command.blank =
    some (record { log_id = some id; proposed_at_ms = none; cmd = none })
payload_to_pb id (Command.normal entry) =
    option_map
      (λ (c : Proto.Cmd). record { log_id = some id; proposed_at_ms = entry.time_ms; cmd = some c })
      (cmd_to_pb entry.cmd)
payload_to_pb id (Command.membership m) = some (record {
  log_id = some id;
  proposed_at_ms = none;
  cmd = some (Proto.membership (membership_to_pb m));
})

-- `PbLogEntryExt::from_raft`; `none` is a panic.
unfoldable pub from_raft : Entry → Option Proto.LogEntry
unfolding cmd_to_pb log_id_to_pb membership_to_pb
from_raft entry = payload_to_pb (log_id_to_pb entry.log_id) entry.payload

-- `new_membership` is `Membership::new` of the crate openraft, which checks the configs against the nodes.
module _ (enums : ProtoEnums) (new_membership : List (List ℕ) → List ℕ → Converted Membership) where
  unfoldable pub membership_from_pb : Proto.Membership → Converted Membership
  unfolding to_set
  membership_from_pb m =
      new_membership (map (λ (g : Proto.VoterGroup). to_set g.node_ids) m.configs) (to_set m.nodes)

  abbrev pub normal_of : Option ℕ → Cmd → EntryPayload
  normal_of time_ms cmd = Command.normal (record { time_ms = time_ms; cmd = cmd })

  unfoldable pub payload_from_pb : Option ℕ → Option Proto.Cmd → Converted EntryPayload
  unfolding membership_from_pb to_node upsert_kv_from_pb transaction_from_pb
  payload_from_pb time_ms none = ok Command.blank
  payload_from_pb time_ms (some (Proto.membership m)) =
      membership_from_pb m >>= λ members. ok (Command.membership members)
  payload_from_pb time_ms (some (Proto.add_node c)) =
      ok_or (option_map to_node c.node) missing_node >>= λ node.
      ok (normal_of time_ms (Command.add_node c.node_id node c.overriding))
  payload_from_pb time_ms (some (Proto.remove_node c)) =
      ok (normal_of time_ms (Command.remove_node c.node_id))
  payload_from_pb time_ms (some (Proto.set_feature c)) =
      ok (normal_of time_ms (Command.set_feature c.feature c.enable))
  payload_from_pb time_ms (some (Proto.upsert_kv c)) =
      upsert_kv_from_pb c >>= λ u. ok (normal_of time_ms (Command.upsert u))
  payload_from_pb time_ms (some (Proto.transaction txn)) =
      ok (normal_of time_ms (Command.transaction txn))
  payload_from_pb time_ms (some (Proto.kv_transaction req)) =
      ok (normal_of time_ms (Command.kv_transaction (transaction_from_pb enums req)))

  -- `PbLogEntryExt::try_into_raft`
  unfoldable pub try_into_raft : Proto.LogEntry → Converted Entry
  unfolding log_id_from_pb payload_from_pb
  try_into_raft m = ok_or (option_map log_id_from_pb m.log_id) missing_log_id >>= λ id.
      payload_from_pb m.proposed_at_ms m.cmd >>= λ payload.
      ok (record { log_id = id; payload = payload })
