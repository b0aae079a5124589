-- ===== src/Applier/Deletions.antt =====
-- What a deletion answers, and what is read after it.
use databend_meta.Common.{
  ℕ, ◌≡◌, ◌∙◌, refl, subst, sym, ap, Bool, true, false, ◌&&◌, Option, none, some, Bytes, Result, ok,
  and_then-ok, if◌then◌else◌, option_map, is_some, is_none,
}
use databend_meta.Types.SeqV.{SeqV, seq_of, KvMeta, seqv_to_pb}
use databend_meta.Types.Upsert.{delete, delete_kv}
use databend_meta.KvTransaction.Operation.{Delete}
use databend_meta.StateMachine.Api.{StateMachineApi}
use databend_meta.StateMachine.Laws.{ValueLaws, MapLaws}
use databend_meta.StateMachine.Ext.{get_maybe_expired_kv}
use databend_meta.StateMachine.Ext.Upsert.{upserted, written, has_expired, meta_of}
use databend_meta.Applier.Response.{TxnDeleteResponse}
use databend_meta.Applier.Defs.{Applier, upsert_kv}
use databend_meta.Applier.Execute.{delete_upsert, delete_reply, execute_delete}
use databend_meta.Applier.Refine.{upsert_kv_refines}
use databend_meta.Applier.Answers.{may_delete, guarded_key, guarded_value}

-- What is read after a deletion.
pub deleted_lem :
    (m expired : Bool) (meta : KvMeta) (found : Option (SeqV Bytes)) (n : ℕ)
    → (upserted m expired delete meta found n).0 ≡ (if m then none else found)
unfolding upserted written
deleted_lem false expired meta found n = refl
deleted_lem true false meta found n = refl
deleted_lem true true meta found n = refl

success_lem :
    (m : Bool) (found : Option (SeqV Bytes))
    → (is_some found && is_none (if m then none else found)) ≡ (is_some found && m)
success_lem true none = refl
success_lem false none = refl
success_lem true (some v) = refl
success_lem false (some v) = refl

module _ (api : StateMachineApi) (values : ValueLaws api) (laws : MapLaws api) where
  delete_matches :
      (op : Delete) (q : ℕ)
      → api.match_seq (delete_upsert op).seq q ≡ may_delete op.target.match_seq q
  unfolding delete_upsert may_delete
  delete_matches op q = go op.target.match_seq
    where
      go :
          (o : Option ℕ)
          → api.match_seq
              (delete_upsert (record op { target = record op.target { match_seq = o } })).seq
              q
            ≡ may_delete o q
      go none = values.match_ge 1 q
      go (some n) = values.match_exact n q

  -- A deletion that succeeds answers with the value that was read before, and reports success exactly where there was one
  -- and its guard lets it write (without a guard, where the value has a sequence number of at least 1); afterwards no
  -- value is read where the guard let it write, and else the one from before.
  pub execute_delete_lem :
      (op : Delete) (a a' : Applier api) (r : TxnDeleteResponse)
      → execute_delete api op a ≡ (ok r, a')
      → (found : Option (SeqV Bytes)) × (get_maybe_expired_kv api op.target.key a.sm ≡ ok found)
        × (get_maybe_expired_kv api op.target.key a'.sm
            ≡ ok (if may_delete op.target.match_seq (seq_of found) then none else found))
        × (r.key ≡ op.target.key)
        × (r.prev_value ≡ option_map seqv_to_pb found)
        × (r.success ≡ (is_some found && may_delete op.target.match_seq (seq_of found)))
  unfolding execute_delete delete_upsert delete_kv
  execute_delete_lem op a a' r h =
      let u = delete_upsert op in
      let ((prev, result), a1, write, reply) =
        and_then-ok (upsert_kv api u a)
          (λ changed s. (ok (delete_reply api op.target.key changed), s)) h in
      let answers : ◌≡◌ {A = Result TxnDeleteResponse}
          (ok (delete_reply api op.target.key (prev, result))) (ok r) =
        ap (λ (p : Result TxnDeleteResponse × Applier api). p.0) reply in
      let answer : delete_reply api op.target.key (prev, result) ≡ r = cc in
      let ends : ◌≡◌ {A = Applier api} a1 a' =
        ap (λ (p : Result TxnDeleteResponse × Applier api). p.1) reply in
      let (before, after, entry, last) =
        upsert_kv_refines api values laws u a a1 prev result write in
      let key : u.key ≡ op.target.key = guarded_key (delete_kv op.target.key) op.target.match_seq in
      let value : u.value ≡ delete = guarded_value (delete_kv op.target.key) op.target.match_seq in
      let may = may_delete op.target.match_seq (seq_of prev) in
      let result_is : result ≡ (if may then none else prev) =
        entry
        ∙ ap
            (λ w.
              (upserted (api.match_seq u.seq (seq_of prev)) (has_expired api u a.cmd_ctx) w
                (meta_of u a.cmd_ctx) prev (laws.last_seq a.sm)).0)
            value
        ∙ deleted_lem (api.match_seq u.seq (seq_of prev)) (has_expired api u a.cmd_ctx)
            (meta_of u a.cmd_ctx) prev (laws.last_seq a.sm)
        ∙ ap (λ m. if m then none else prev) (delete_matches op (seq_of prev)) in
      (
        prev,
        subst (λ k. get_maybe_expired_kv api k a.sm ≡ ok prev) key before,
        subst
            (λ (s : Applier api).
              get_maybe_expired_kv api op.target.key s.sm ≡ ok (if may then none else prev))
            ends
            (subst (λ k. get_maybe_expired_kv api k a1.sm ≡ ok (if may then none else prev)) key
              (after ∙ ap (λ x. ok x) result_is)),
        ap (λ r. r.key) (sym answer),
        ap (λ r. r.prev_value) (sym answer),
        ap (λ r. r.success) (sym answer)
            ∙ ap (λ x. is_some prev && is_none x) result_is
            ∙ success_lem may prev,
      )
