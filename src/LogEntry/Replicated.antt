-- ===== src/LogEntry/Replicated.antt =====
-- A follower applies the entries that it receives as the leader applies those that it sent.
use databend_meta.Common.{
  ℕ, ◌≡◌, ◌∙◌, refl, sym, ap, arith, Bool, true, Option, none, some, List, [], ◌∷◌, All, option_map,
  leb, unwrap_or,
}
use databend_meta.Common
use databend_meta.Types.MetaSpec
use databend_meta.Types.MetaSpec.{MetaSpec}
use databend_meta.Types.Interval.{Interval}
use databend_meta.Types.Upsert
use databend_meta.Types.Upsert.{UpsertKv, MatchSeq}
use databend_meta.Types.SysData.{LogId, Membership}
use databend_meta.KvTransaction.Defs.{Condition}
use databend_meta.KvTransaction.Proto.{ProtoEnums, ReadsMembers}
use databend_meta.StateMachine.Api.{StateMachineApi}
use databend_meta.StateMachine.Laws.{ValueLaws}
use databend_meta.StateMachine.Ext.Alike.{upsert_kv_primary_index-alike}
use databend_meta.Applier.Defs.{Applier, upsert_kv, index_and_push, pure}
use databend_meta.Applier.Response
use databend_meta.Applier.Evaluate.{eval_condition}
use databend_meta.Applier.Command
use databend_meta.Applier.Command.{
  Cmd, LogEntry, Entry, EntryPayload, apply, apply_cmd, apply_payload, apply_upsert_kv, kv_reply,
  get_log_time, update_sys_data, set_last_applied, drain_changes,
}
use databend_meta.Applier.Clean.{clean_expired_kvs}
use databend_meta.Types.CmdContext.{from_millis_and_log_id}
use mathlib.Core.Path.{fun_ext}
use databend_meta.Applier.Requests.{apply_kv_transaction-transaction_from_pb}
use databend_meta.LogEntry.Proto
use databend_meta.LogEntry.Convert.{
  Converted, ok, from_raft, try_into_raft, log_id_to_pb, log_id_from_pb,
}
use databend_meta.LogEntry.Append.{
  AppendEntriesRequest, append_from_raft, append_into_raft, entries_to_pb, entries_from_pb,
  vote_to_pb,
}
use databend_meta.LogEntry.Received.{
  received, received_cmd, received_upsert, received_seq, received_spec, CanSend,
  try_into_raft-from_raft,
}

meta_resolved :
    (at : Option ℕ) (ttl : Option Interval)
    → unwrap_or (received_spec (some (record { expire_at = at; ttl = ttl }))) MetaSpec.default
      ≡ record { expire_at = at; ttl = ttl }
meta_resolved none none = refl
meta_resolved none (some ttl) = refl
meta_resolved (some at) none = refl
meta_resolved (some at) (some ttl) = refl

spec_resolved :
    (o : Option MetaSpec)
    → unwrap_or (received_spec o) MetaSpec.default ≡ unwrap_or o MetaSpec.default
spec_resolved none = refl
spec_resolved (some m) = meta_resolved m.expire_at m.ttl

zero_leb : (n : ℕ) → leb 0 n ≡ true
zero_leb n = ground arith

ids_received : (o : Option LogId) → option_map log_id_from_pb (option_map log_id_to_pb o) ≡ o
unfolding log_id_to_pb log_id_from_pb
ids_received none = refl
ids_received (some id) = refl

module _ (api : StateMachineApi) (values : ValueLaws api) (enums : ProtoEnums) where
  seq_tested : (q : MatchSeq) (n : ℕ) → api.match_seq (received_seq q) n ≡ api.match_seq q n
  seq_tested Upsert.any n = values.match_ge 0 n ∙ zero_leb n ∙ sym (values.match_any n)
  seq_tested (Upsert.exact k) n = refl
  seq_tested (Upsert.ge k) n = refl

  upsert_received :
      (u : UpsertKv) (a : Applier api) → upsert_kv api (received_upsert u) a ≡ upsert_kv api u a
  unfolding upsert_kv
  upsert_received u a =
      ap (λ p. Common.and_then (p.0, record a { sm = p.1 }) (index_and_push api u))
        (upsert_kv_primary_index-alike api u (received_seq u.seq) (received_spec u.value_meta)
          (seq_tested u.seq) (spec_resolved u.value_meta) a.cmd_ctx a.sm)

  module _ (readable : ReadsMembers enums) (v : Applier api → Condition → Bool)
      (conditions : (a : Applier api) (c : Condition)
        → eval_condition api c a ≡ Common.ok (v a c)) where
    cmd_applied :
        (c : Cmd) (a : Applier api)
        → apply_cmd api enums (received_cmd enums c) a ≡ apply_cmd api enums c a
    unfolding apply_cmd apply_upsert_kv
    cmd_applied (Command.add_node id node overriding) a = refl
    cmd_applied (Command.remove_node id) a = refl
    cmd_applied (Command.set_feature feature enable) a = refl
    cmd_applied (Command.upsert u) a =
        ap (λ p. Common.and_then p (λ changed. pure (kv_reply api enums changed)))
          (upsert_received u a)
    cmd_applied (Command.transaction txn) a = refl
    cmd_applied (Command.kv_transaction txn) a =
        ap (λ p. Common.and_then p (λ reply. pure (Response.kv_transaction_reply reply)))
          (apply_kv_transaction-transaction_from_pb api a (v a) (conditions a) enums readable txn)

    payload_applied :
        (id : LogId) (p : EntryPayload) (a : Applier api)
        → apply_payload api enums id (received enums p) a ≡ apply_payload api enums id p a
    unfolding apply_payload
    payload_applied id Command.blank a = refl
    payload_applied id (Command.normal entry) a = cmd_applied entry.cmd a
    payload_applied id (Command.membership m) a = refl

    time_received :
        (id : LogId) (p : EntryPayload)
        → get_log_time (record { log_id = id; payload = received enums p })
          ≡ get_log_time (record { log_id = id; payload = p })
    unfolding get_log_time
    time_received id Command.blank = refl
    time_received id (Command.normal entry) = refl
    time_received id (Command.membership m) = refl

    -- `apply`, over the log time and what the payload does
    abbrev steps :
        LogId
        → ℕ
        → (Applier api → Common.Result Response.AppliedState × Applier api)
        → Applier api
        → Common.Result Response.AppliedState × Applier api
    steps id log_time does a =
        Common.and_then
          (clean_expired_kvs api log_time
            (record a { cmd_ctx = from_millis_and_log_id log_time id }))
          (λ _ cleaned.
            Common.and_then
              (does (update_sys_data api enums (set_last_applied api enums id) cleaned))
              (drain_changes api enums))

    entry_applied :
        (id : LogId) (p : EntryPayload) (a : Applier api)
        → apply api enums (record { log_id = id; payload = received enums p }) a
          ≡ apply api enums (record { log_id = id; payload = p }) a
    unfolding apply
    entry_applied id p a =
        ap (λ t. steps id t (apply_payload api enums id (received enums p)) a) (time_received id p)
        ∙ ap (λ f. steps id (get_log_time (record { log_id = id; payload = p })) f a)
            (fun_ext (payload_applied id p))

    module _ (new_membership : List (List ℕ) → List ℕ → Converted Membership) where
      -- Where the generated accessors read a member's number as that member and every condition can be evaluated in
      -- every state: an entry that can be sent is sent as a message, which is read back as an entry with the same log
      -- id that does and answers in every state what the original does and answers.
      pub apply-try_into_raft :
          (e : Entry)
          → CanSend enums new_membership e.payload
          → (m : Proto.LogEntry) × (e' : Entry) × (from_raft e ≡ some m)
            × (try_into_raft enums new_membership m ≡ ok e')
            × (e'.log_id ≡ e.log_id)
            × ((a : Applier api) → apply api enums e' a ≡ apply api enums e a)
      apply-try_into_raft e h =
          let (m, sent, back) = try_into_raft-from_raft enums new_membership e.log_id e.payload h in
          (
            m,
            record e { payload = received enums e.payload },
            sent,
            back,
            refl,
            entry_applied e.log_id e.payload,
          )

      -- One entry after another, with the same log ids and effects.
      abbrev pub Alike : List Entry → List Entry → Type 0
      Alike [] [] = Unit {0}
      Alike (e' ∷ es') (e ∷ es) =
          (e'.log_id ≡ e.log_id)
          × ((a : Applier api) → apply api enums e' a ≡ apply api enums e a)
          × Alike es' es
      Alike _ _ = ⊥

      entries_received :
          (es : List Entry)
          → All (λ (e : Entry). CanSend enums new_membership e.payload) es
          → (ms : List Proto.LogEntry) × (es' : List Entry) × (entries_to_pb es ≡ some ms)
            × (entries_from_pb enums new_membership ms ≡ ok es')
            × Alike es' es
      unfolding entries_to_pb entries_from_pb
      entries_received [] h = ([], [], refl, refl, tt)
      entries_received (e ∷ es) (first, rest) =
          let (m, e', sent, back, same, alike) = apply-try_into_raft e first in
          let (ms, es', sent_all, back_all, all_alike) = entries_received es rest in
          (m ∷ ms, e' ∷ es', rw (sent, sent_all), rw (back, back_all), (same, alike, all_alike))

      -- Under the same conditions: an append request whose entries can all be sent arrives with the same vote, the
      -- same previous log id and the same commit, and its entries, in order, have the log ids and the effects of those
      -- that were sent.
      pub append_into_raft-append_from_raft :
          (req : AppendEntriesRequest)
          → All (λ (e : Entry). CanSend enums new_membership e.payload) req.entries
          → (m : Proto.AppendRequest) × (req' : AppendEntriesRequest) × (append_from_raft req
              ≡ some m)
            × (append_into_raft enums new_membership m ≡ ok req')
            × (req'.vote ≡ req.vote)
            × (req'.prev_log_id ≡ req.prev_log_id)
            × (req'.leader_commit ≡ req.leader_commit)
            × Alike req'.entries req.entries
      unfolding append_from_raft append_into_raft
      append_into_raft-append_from_raft req h =
          let (ms, es', sent, back, alike) = entries_received req.entries h in
          (
            record {
              vote = some (vote_to_pb req.vote);
              prev_log_id = option_map log_id_to_pb req.prev_log_id;
              entries = ms;
              leader_commit = option_map log_id_to_pb req.leader_commit;
            },
            record req { entries = es' },
            rw sent,
            rw (back, ids_received req.prev_log_id, ids_received req.leader_commit),
            refl,
            refl,
            refl,
            alike,
          )
