-- ===== src/LogEntry/Received.antt =====
-- What arrives of an entry that is sent.
use databend_meta.Common.{
  ℕ, ◌%◌, ◌^◌, ◌*◌, ◌/◌, ◌<◌, ◌≡◌, ◌≢◌, refl, ap, arith, Option, none, some, List, [], ◌∷◌, map,
  Bytes, option_map, All,
}
use databend_meta.Common.Int.{u64_mod}
use databend_meta.Types.Interval
use databend_meta.Types.Interval.{Interval}
use databend_meta.Types.MetaSpec
use databend_meta.Types.MetaSpec.{MetaSpec}
use databend_meta.Types.Upsert
use databend_meta.Types.Upsert.{UpsertKv, Operation, MatchSeq}
use databend_meta.Types.Node.{Node}
use databend_meta.Types.SysData.{LogId, Membership}
use databend_meta.KvTransaction.Proto.{ProtoEnums}
use databend_meta.KvTransaction.Convert.{transaction_from_pb, transaction_to_pb}
use databend_meta.Applier.Command
use databend_meta.Applier.Command.{Cmd, LogEntry, Entry, EntryPayload}
use databend_meta.LogEntry.Proto
use databend_meta.LogEntry.Convert.{
  Converted, ok, to_set, from_raft, try_into_raft, cmd_to_pb, upsert_kv_to_pb, upsert_kv_from_pb,
  spec_to_pb, spec_from_pb, value_to_pb, value_from_pb, match_seq_to_pb, match_seq_from_pb,
  from_node, to_node, payload_from_pb, membership_to_pb, log_id_to_pb,
}

-- A test on the sequence number as it arrives: `Any` is `GE(0)`.
abbrev pub received_seq : MatchSeq → MatchSeq
received_seq Upsert.any = Upsert.ge 0
received_seq (Upsert.exact n) = Upsert.exact n
received_seq (Upsert.ge n) = Upsert.ge n

abbrev pub received_meta : Option ℕ → Option Interval → Option MetaSpec
received_meta none none = none
received_meta expire_at ttl = some (record { expire_at = expire_at; ttl = ttl })

-- A spec without an expiration arrives as no spec.
abbrev pub received_spec : Option MetaSpec → Option MetaSpec
received_spec none = none
received_spec (some m) = received_meta m.expire_at m.ttl

abbrev pub received_upsert : UpsertKv → UpsertKv
received_upsert u = record u { seq = received_seq u.seq; value_meta = received_spec u.value_meta }

abbrev pub received_cmd : ProtoEnums → Cmd → Cmd
received_cmd enums (Command.upsert u) = Command.upsert (received_upsert u)
received_cmd enums (Command.kv_transaction txn) =
    Command.kv_transaction (transaction_from_pb enums (transaction_to_pb txn))
received_cmd enums c = c

abbrev pub received : ProtoEnums → EntryPayload → EntryPayload
received enums (Command.normal entry) =
    Command.normal (record entry { cmd = received_cmd enums entry.cmd })
received enums p = p

abbrev pub InOrder : List ℕ → Type 0
InOrder ns = to_set ns ≡ ns

abbrev pub TtlFits : Option Interval → Type 0
TtlFits none = Unit {0}
TtlFits (some ttl) = ttl.millis < u64_mod

abbrev pub SpecFits : Option MetaSpec → Type 0
SpecFits none = Unit {0}
SpecFits (some m) = TtlFits m.ttl

-- A command that can be sent: numbers that a `u64` or a `u16` holds, the deprecated operation is not used, and a node has
-- no address of the old form.
abbrev pub CanSendCmd : Cmd → Type 0
CanSendCmd (Command.upsert u) = (u.value ≢ Upsert.as_is) × SpecFits u.value_meta
CanSendCmd (Command.add_node id node overriding) =
    (node.endpoint.port < 2 ^ 16) × (node.grpc_api_addr ≡ none)
CanSendCmd c = Unit {0}

match_seq_received : (q : MatchSeq) → match_seq_from_pb (match_seq_to_pb q) ≡ received_seq q
unfolding match_seq_from_pb match_seq_to_pb
match_seq_received Upsert.any = refl
match_seq_received (Upsert.exact n) = refl
match_seq_received (Upsert.ge n) = refl

from_millis-millis : (ttl : Interval) → ttl.millis < u64_mod → Interval.from_millis ttl.millis ≡ ttl
unfolding Interval.from_millis
from_millis-millis ttl h =
    let same : ttl.millis * 1000000 / 1000000 % u64_mod ≡ ttl.millis = omega (arith, h) in
    ap (λ n. record { millis = n }) same

meta_received :
    (expire_at : Option ℕ) (ttl : Option Interval)
    → TtlFits ttl
    → spec_from_pb expire_at (option_map (λ (i : Interval). i.millis) ttl)
      ≡ received_meta expire_at ttl
unfolding Interval.from_millis MetaSpec.new
meta_received none none h = refl
meta_received none (some ttl) h = ap (λ t. received_meta none (some t)) (from_millis-millis ttl h)
meta_received (some at) none h = refl
meta_received (some at) (some ttl) h =
    ap (λ t. received_meta (some at) (some t)) (from_millis-millis ttl h)

spec_received :
    (o : Option MetaSpec)
    → SpecFits o
    → spec_from_pb (spec_to_pb o).0 (spec_to_pb o).1 ≡ received_spec o
spec_received none h = refl
spec_received (some m) h = meta_received m.expire_at m.ttl h

value_received :
    (op : Operation Bytes)
    → op ≢ Upsert.as_is
    → (v : Option Bytes) × (value_to_pb op ≡ some v) × (value_from_pb v ≡ op)
unfolding value_to_pb value_from_pb
value_received (Upsert.update v) h = (some v, refl, refl)
value_received Upsert.delete h = (none, refl, refl)
value_received Upsert.as_is h = absurd (h refl)

upsert_kv_received :
    (u : UpsertKv)
    → (u.value ≢ Upsert.as_is) × SpecFits u.value_meta
    → (m : Proto.CmdUpsertKv) × (upsert_kv_to_pb u ≡ some m)
      × (upsert_kv_from_pb m ≡ ok (received_upsert u))
unfolding upsert_kv_to_pb upsert_kv_from_pb
upsert_kv_received u (h, fits) =
    let (v, sent, back) = value_received u.value h in
    (
      record {
        key = u.key;
        seq = some (match_seq_to_pb u.seq);
        value = v;
        expire_at = (spec_to_pb u.value_meta).0;
        ttl_ms = (spec_to_pb u.value_meta).1;
      },
      rw sent,
      rw (back, match_seq_received u.seq, spec_received u.value_meta fits),
    )

to_node-from_node :
    (n : Node) → n.endpoint.port < 2 ^ 16 → n.grpc_api_addr ≡ none → to_node (from_node n) ≡ n
unfolding to_node from_node
to_node-from_node n h e =
    let port : n.endpoint.port % 2 ^ 32 % 2 ^ 16 ≡ n.endpoint.port = omega (arith, h) in
    ground (arith, port)

sets_received :
    (gs : List (List ℕ))
    → All InOrder gs
    → map
        (λ (g : Proto.VoterGroup). to_set g.node_ids)
        (map (λ (g : List ℕ). record { node_ids = g }) gs)
      ≡ gs
sets_received [] h = refl
sets_received (g ∷ gs) (first, rest) = rw (first, sets_received gs rest)

module _ (enums : ProtoEnums) (new_membership : List (List ℕ) → List ℕ → Converted Membership) where
  -- What can be sent: such a command, or a membership that openraft accepts, its sets in ascending order.
  abbrev pub CanSend : EntryPayload → Type 0
  CanSend Command.blank = Unit {0}
  CanSend (Command.normal entry) = CanSendCmd entry.cmd
  CanSend (Command.membership m) =
      All InOrder m.configs × InOrder m.nodes × (new_membership m.configs m.nodes ≡ ok m)

  cmd_received :
      (c : Cmd) (time_ms : Option ℕ)
      → CanSendCmd c
      → (m : Proto.Cmd) × (cmd_to_pb c ≡ some m)
        × (payload_from_pb enums new_membership time_ms (some m)
            ≡ ok (Command.normal (record { time_ms = time_ms; cmd = received_cmd enums c })))
  unfolding cmd_to_pb payload_from_pb
  cmd_received (Command.add_node id node overriding) time_ms (port, old) = (
    Proto.add_node (record { node_id = id; node = some (from_node node); overriding = overriding }),
    refl,
    rw (to_node-from_node node port old),
  )
  cmd_received (Command.remove_node id) time_ms h =
      (Proto.remove_node (record { node_id = id }), refl, refl)
  cmd_received (Command.set_feature feature enable) time_ms h =
      (Proto.set_feature (record { feature = feature; enable = enable }), refl, refl)
  cmd_received (Command.upsert u) time_ms h =
      let (m, sent, back) = upsert_kv_received u h in (Proto.upsert_kv m, rw sent, rw back)
  cmd_received (Command.transaction txn) time_ms h = (Proto.transaction txn, refl, refl)
  cmd_received (Command.kv_transaction txn) time_ms h =
      (Proto.kv_transaction (transaction_to_pb txn), refl, refl)

  -- An entry that can be sent is sent, and arrives with its log id and `received` of its payload.
  pub try_into_raft-from_raft :
      (id : LogId) (p : EntryPayload)
      → CanSend p
      → (m : Proto.LogEntry) × (from_raft (record { log_id = id; payload = p }) ≡ some m)
        × (try_into_raft enums new_membership m
            ≡ ok (record { log_id = id; payload = received enums p }))
  unfolding from_raft try_into_raft
  try_into_raft-from_raft id Command.blank h =
      (record { log_id = some (log_id_to_pb id); proposed_at_ms = none; cmd = none }, refl, refl)
  try_into_raft-from_raft id (Command.normal entry) h =
      let (c, sent, back) = cmd_received entry.cmd entry.time_ms h in
      (
        record { log_id = some (log_id_to_pb id); proposed_at_ms = entry.time_ms; cmd = some c },
        rw sent,
        rw back,
      )
  try_into_raft-from_raft id (Command.membership m) (configs, nodes, accepted) = (
    record {
      log_id = some (log_id_to_pb id);
      proposed_at_ms = none;
      cmd = some (Proto.membership (membership_to_pb m));
    },
    refl,
    rw (sets_received m.configs configs, nodes, accepted),
  )
