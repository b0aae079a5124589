-- ===== src/Applier/Sequence.antt =====
-- A value that is put under the next sequential key.
use databend_meta.Common.{
  ◌+◌, ◌<◌, min, ◌≡◌, ◌≢◌, ◌∙◌, subst, sym, ap, arith, Option, none, Text, Bytes, Result, ok,
  and_then, and_then-ok, option_map,
}
use databend_meta.Common.Int.{pos, u64_mod, u64_max}
use databend_meta.Types.Time.{millis}
use databend_meta.Types.SeqV.{SeqV, seqv_to_pb}
use databend_meta.Types.Upsert.{UpsertKv, update_kv, with_meta}
use databend_meta.KvTransaction.Operation.{
  FetchIncreaseU64, PutSequential, to_meta_spec, just_lookup,
}
use databend_meta.Keys.Sequential.{build_key}
use databend_meta.StateMachine.Api.{StateMachineApi}
use databend_meta.StateMachine.Laws.{ValueLaws, MapLaws}
use databend_meta.StateMachine.Ext.{get_maybe_expired_kv}
use databend_meta.Applier.Response.{TxnPutResponse, FetchIncreaseU64Response}
use databend_meta.Applier.Defs.{Applier, upsert_kv}
use databend_meta.Applier.Execute.{
  stored_u64, put_reply, execute_fetch_increase_u64, execute_put_sequential,
}
use databend_meta.Applier.Refine.{upsert_kv_refines, upsert_kv_other}
use databend_meta.Applier.Increase.{execute_fetch_increase_u64_reads_back}

module _ (api : StateMachineApi) (values : ValueLaws api) (laws : MapLaws api) where
  abbrev counter_op : PutSequential → FetchIncreaseU64
  counter_op op = record {
    target = record { key = op.sequence_key; match_seq = none };
    delta = pos 1;
    floor = 0;
  }

  abbrev put_at : PutSequential → Text → UpsertKv
  put_at op key = with_meta (update_kv key op.payload.value) (to_meta_spec op.payload)

  -- The two steps of a sequential put.
  steps :
      (op : PutSequential) (a a' : Applier api) (r : TxnPutResponse)
      → execute_put_sequential api op a ≡ (ok r, a')
      → (fetched : FetchIncreaseU64Response) × (a1 : Applier api) × (prev : Option (SeqV Bytes))
        × (result : Option (SeqV Bytes)) × (execute_fetch_increase_u64 api (counter_op op) a
            ≡ (ok fetched, a1))
        × (upsert_kv api (put_at op (build_key op.prefix fetched.before)) a1
            ≡ (ok (prev, result), a'))
        × (put_reply api (build_key op.prefix fetched.before) (prev, result) ≡ r)
  unfolding execute_put_sequential just_lookup
  steps op a a' r h =
      let (fetched, a1, fetch, rest) =
        and_then-ok (execute_fetch_increase_u64 api (counter_op op) a)
          (λ fetched s.
            and_then (upsert_kv api (put_at op (build_key op.prefix fetched.before)) s)
              λ changed t. (ok (put_reply api (build_key op.prefix fetched.before) changed), t))
          h in
      let ((prev, result), a2, write, reply) =
        and_then-ok (upsert_kv api (put_at op (build_key op.prefix fetched.before)) a1)
          (λ changed t. (ok (put_reply api (build_key op.prefix fetched.before) changed), t))
          rest in
      let answers : ◌≡◌ {A = Result TxnPutResponse}
          (ok (put_reply api (build_key op.prefix fetched.before) (prev, result))) (ok r) =
        ap (λ (p : Result TxnPutResponse × Applier api). p.0) reply in
      let ends : ◌≡◌ {A = Applier api} a2 a' =
        ap (λ (p : Result TxnPutResponse × Applier api). p.1) reply in
      (
        fetched,
        a1,
        prev,
        result,
        fetch,
        write ∙ ap (λ (s : Applier api). (ok (prev, result), s)) ends,
        cc,
      )

  -- Where a sequential put succeeds, at a time that is a `u64`, and its key is not that of its counter: the key is built
  -- from the counter before, the answer has the value that is read at the key afterwards, and the counter
  -- afterwards is one more, at most 2^64 - 1.
  pub execute_put_sequential_lem :
      (op : PutSequential) (a a' : Applier api) (r : TxnPutResponse)
      → millis a.cmd_ctx.time < u64_mod
      → op.sequence_key ≢ r.key
      → execute_put_sequential api op a ≡ (ok r, a')
      → (found : Option (SeqV Bytes)) × (counter : Option (SeqV Bytes)) × (result : Option
          (SeqV Bytes))
        × (get_maybe_expired_kv api op.sequence_key a.sm ≡ ok found)
        × (get_maybe_expired_kv api op.sequence_key a'.sm ≡ ok counter)
        × (get_maybe_expired_kv api r.key a'.sm ≡ ok result)
        × (r.key ≡ build_key op.prefix (stored_u64 api found))
        × (r.current ≡ option_map seqv_to_pb result)
        × (stored_u64 api counter ≡ min (stored_u64 api found + 1) u64_max)
  unfolding with_meta update_kv
  execute_put_sequential_lem op a a' r time other h =
      let (fetched, a1, prev, result, fetch, write, reply) = steps op a a' r h in
      let (found, counter, read, after, before, bs, c, cs, next) =
        execute_fetch_increase_u64_reads_back api values laws (counter_op op) a a1 fetched time
          (omega arith) fetch in
      let key : r.key ≡ build_key op.prefix fetched.before = ap (λ r. r.key) (sym reply) in
      let u = put_at op (build_key op.prefix fetched.before) in
      let (_, stored, _, _) = upsert_kv_refines api values laws u a1 a' prev result write in
      let kept =
        upsert_kv_other api values laws u a1 a' (prev, result) op.sequence_key write
          (λ e. other (e ∙ sym key)) in
      (
        found,
        counter,
        result,
        read,
        kept ∙ after,
        subst (λ k. get_maybe_expired_kv api k a'.sm ≡ ok result) (sym key) stored,
        key ∙ ap (build_key op.prefix) before,
        ap (λ r. r.current) (sym reply),
        next ∙ omega arith,
      )
