-- ===== src/Applier/Puts.antt =====
-- What a put answers, and what is read after it.
use databend_meta.Common.{
  ℕ, ◌+◌, ◌≡◌, ◌∙◌, refl, subst, sym, ap, arith, Bool, true, false, Option, none, some, Bytes,
  Result, ok, and_then-ok, option_map, ltb, unwrap_or,
}
use databend_meta.Types.SeqV.{SeqV, seq_of, KvMeta, seqv_to_pb}
use databend_meta.Types.Upsert.{update, update_kv, with_meta}
use databend_meta.Types.Time.{millis}
use databend_meta.Types.MetaSpec
use databend_meta.Types.CmdContext.{resolve_meta_spec}
use databend_meta.KvTransaction.Operation.{Put, to_meta_spec}
use databend_meta.StateMachine.Api.{StateMachineApi}
use databend_meta.StateMachine.Laws.{ValueLaws, MapLaws}
use databend_meta.StateMachine.Ext.{get_maybe_expired_kv}
use databend_meta.StateMachine.Ext.Upsert.{upserted, written, has_expired, meta_of}
use databend_meta.Applier.Response.{TxnPutResponse}
use databend_meta.Applier.Defs.{Applier, upsert_kv}
use databend_meta.Applier.Execute.{put_upsert, put_reply, execute_put}
use databend_meta.Applier.Refine.{upsert_kv_refines}
use databend_meta.Applier.Answers.{may_put, guarded_key, guarded_value, guarded_meta}

-- What is read after a put.
abbrev pub stored : Bool → Bool → KvMeta → Bytes → Option (SeqV Bytes) → ℕ → Option (SeqV Bytes)
stored false expired meta value found n = found
stored true true meta value found n = none
stored true false meta value found n =
    some (record { seq = n + 1; meta = some meta; value = value })

stored_lem :
    (m expired : Bool) (meta : KvMeta) (value : Bytes) (found : Option (SeqV Bytes)) (n : ℕ)
    → (upserted m expired (update value) meta found n).0 ≡ stored m expired meta value found n
unfolding upserted written
stored_lem false expired meta value found n = refl
stored_lem true true meta value found n = refl
stored_lem true false meta value found n = refl

module _ (api : StateMachineApi) (values : ValueLaws api) (laws : MapLaws api) where
  put_matches :
      (op : Put) (q : ℕ) → api.match_seq (put_upsert op).seq q ≡ may_put op.target.match_seq q
  unfolding put_upsert may_put
  put_matches op q = go op.target.match_seq
    where
      go :
          (o : Option ℕ)
          → api.match_seq
              (put_upsert (record op { target = record op.target { match_seq = o } })).seq
              q
            ≡ may_put o q
      go none = values.match_ge 0 q ∙ ground arith
      go (some n) = values.match_exact n q

  -- What a put writes its value with.
  abbrev pub put_meta : Put → Applier api → KvMeta
  put_meta op a = resolve_meta_spec a.cmd_ctx (to_meta_spec op.payload)

  abbrev pub put_result : Put → Applier api → Option (SeqV Bytes) → Option (SeqV Bytes)
  put_result op a found =
      stored (may_put op.target.match_seq (seq_of found))
        (ltb (api.expires_at_ms (put_meta op a)) (millis a.cmd_ctx.time)) (put_meta op a)
        op.payload.value found (laws.last_seq a.sm)

  meta_of_put : (op : Put) (a : Applier api) → meta_of (put_upsert op) a.cmd_ctx ≡ put_meta op a
  unfolding put_upsert with_meta
  meta_of_put op a =
      ap (λ m. resolve_meta_spec a.cmd_ctx (unwrap_or m MetaSpec.default))
        (guarded_meta
          (with_meta (update_kv op.target.key op.payload.value) (to_meta_spec op.payload))
          op.target.match_seq)

  put_result_lem :
      (op : Put) (a : Applier api) (found : Option (SeqV Bytes))
      → (upserted
          (api.match_seq (put_upsert op).seq (seq_of found))
          (has_expired api (put_upsert op) a.cmd_ctx)
          (put_upsert op).value
          (meta_of (put_upsert op) a.cmd_ctx)
          found
          (laws.last_seq a.sm)).0
        ≡ put_result op a found
  unfolding put_upsert with_meta update_kv
  put_result_lem op a found =
      let u = put_upsert op in
      let n = laws.last_seq a.sm in
      let value : u.value ≡ update op.payload.value =
        guarded_value
          (with_meta (update_kv op.target.key op.payload.value) (to_meta_spec op.payload))
          op.target.match_seq in
      ap
        (λ w.
          (upserted (api.match_seq u.seq (seq_of found)) (has_expired api u a.cmd_ctx) w
            (meta_of u a.cmd_ctx) found n).0)
        value
      ∙ stored_lem (api.match_seq u.seq (seq_of found)) (has_expired api u a.cmd_ctx)
          (meta_of u a.cmd_ctx) op.payload.value found n
      ∙ ap
          (λ m.
            stored m (has_expired api u a.cmd_ctx) (meta_of u a.cmd_ctx) op.payload.value found n)
          (put_matches op (seq_of found))
      ∙ ap
          (λ m.
            stored (may_put op.target.match_seq (seq_of found))
              (ltb (api.expires_at_ms m) (millis a.cmd_ctx.time)) m op.payload.value found n)
          (meta_of_put op a)

  -- A put that succeeds answers with what was read before and what is read afterwards: where its guard lets it write, its
  -- value with the next sequence number and the expiration that is resolved at the time of the log, or nothing
  -- where that lies before this time; else what was there.
  pub execute_put_lem :
      (op : Put) (a a' : Applier api) (r : TxnPutResponse)
      → execute_put api op a ≡ (ok r, a')
      → (found : Option (SeqV Bytes)) × (get_maybe_expired_kv api op.target.key a.sm ≡ ok found)
        × (get_maybe_expired_kv api op.target.key a'.sm ≡ ok (put_result op a found))
        × (r.key ≡ op.target.key)
        × (r.prev_value ≡ option_map seqv_to_pb found)
        × (r.current ≡ option_map seqv_to_pb (put_result op a found))
  unfolding execute_put put_upsert with_meta update_kv
  execute_put_lem op a a' r h =
      let u = put_upsert op in
      let ((prev, result), a1, write, reply) =
        and_then-ok (upsert_kv api u a) (λ changed s. (ok (put_reply api op.target.key changed), s))
          h in
      let answers : ◌≡◌ {A = Result TxnPutResponse}
          (ok (put_reply api op.target.key (prev, result))) (ok r) =
        ap (λ (p : Result TxnPutResponse × Applier api). p.0) reply in
      let answer : put_reply api op.target.key (prev, result) ≡ r = cc in
      let ends : ◌≡◌ {A = Applier api} a1 a' =
        ap (λ (p : Result TxnPutResponse × Applier api). p.1) reply in
      let (before, after, entry, last) =
        upsert_kv_refines api values laws u a a1 prev result write in
      let key : u.key ≡ op.target.key =
        guarded_key (with_meta (update_kv op.target.key op.payload.value) (to_meta_spec op.payload))
          op.target.match_seq in
      let result_is : result ≡ put_result op a prev = entry ∙ put_result_lem op a prev in
      (
        prev,
        subst (λ k. get_maybe_expired_kv api k a.sm ≡ ok prev) key before,
        subst
            (λ (s : Applier api).
              get_maybe_expired_kv api op.target.key s.sm ≡ ok (put_result op a prev))
            ends
            (subst (λ k. get_maybe_expired_kv api k a1.sm ≡ ok (put_result op a prev)) key
              (after ∙ ap (λ x. ok x) result_is)),
        ap (λ r. r.key) (sym answer),
        ap (λ r. r.prev_value) (sym answer),
        ap (λ r. r.current) (sym answer) ∙ ap (λ x. option_map seqv_to_pb x) result_is,
      )
