-- ===== src/Applier/Updates.antt =====
-- Updates without a meta (`upsert_kv` of crates/server/raft-store/src/applier/mod.rs).
use databend_meta.Common.{
  ℕ, ◌+◌, ◌<◌, ◌≡◌, ◌∙◌, arith, true, false, Option, some, Text, Bytes, ok, ltb, leb,
}
use databend_meta.Common.{true, ◌+◌}
use databend_meta.Common.Int.{u64_mod, u64_max}
use databend_meta.Types.Time.{millis}
use databend_meta.Types.SeqV.{SeqV, KvMeta, seq_of}
use databend_meta.Types.Upsert.{update_kv, ge}
use databend_meta.Types.CmdContext.{resolve_meta_spec}
use databend_meta.StateMachine.Api.{StateMachineApi}
use databend_meta.StateMachine.Laws.{ValueLaws, MapLaws}
use databend_meta.StateMachine.Ext.{get_maybe_expired_kv}
use databend_meta.StateMachine.Ext.Upsert.{upserted, written, has_expired, meta_of}
use databend_meta.Applier.Defs.{Applier, upsert_kv}
use databend_meta.Applier.Refine.{upsert_kv_refines}

not_ltb : (m : ℕ) → m < u64_mod → ltb u64_max m ≡ false
not_ltb m h = ground arith

zero_leb : (m : ℕ) → leb 0 m ≡ true
zero_leb m = ground arith

module _ (api : StateMachineApi) (values : ValueLaws api) (laws : MapLaws api) where
  open api use {State, write_u64, read_u64}

  -- An update without a meta writes its value, at any sequence number.
  pub update_kv-written :
      (key : Text) (value : Bytes) (a a' : Applier api) (prev result : Option (SeqV Bytes))
      → millis a.cmd_ctx.time < u64_mod
      → upsert_kv api (update_kv key value) a ≡ (ok (prev, result), a')
      → (meta : KvMeta) × (result
          ≡ some (record { seq = laws.last_seq a.sm + 1; meta = some meta; value = value }))
        × (get_maybe_expired_kv api key a'.sm ≡ ok result)
  unfolding update_kv resolve_meta_spec upserted written
  update_kv-written key value a a' prev result time h =
      let u = update_kv key value in
      let (before, after, entry, last) = upsert_kv_refines api values laws u a a' prev result h in
      let lives : has_expired api u a.cmd_ctx ≡ false =
        rw (values.never_expires (some (millis a.cmd_ctx.time)))
          (not_ltb (millis a.cmd_ctx.time) time) in
      let any_seq : api.match_seq (ge 0) (seq_of prev) ≡ true =
        values.match_ge 0 (seq_of prev) ∙ zero_leb (seq_of prev) in
      (meta_of u a.cmd_ctx, entry ∙ rw (any_seq, lives), after)
