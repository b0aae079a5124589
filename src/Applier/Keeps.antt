-- ===== src/Applier/Keeps.antt =====
-- What every step of the applier keeps: a property that upserts, the record of a change and the
-- bookkeeping keep is kept by every operation, transaction and command that succeeds.
use databend_meta.Common.{
  ℕ, ◌+◌, ◌%◌, ◌≡◌, subst, ap, Bool, true, false, Option, List, [], ◌∷◌, Text, Bytes, Result, ok,
  err, Action, and_then-ok, IoStream, if◌then◌else◌,
}
use databend_meta.Common.Int.{pos, u32_mod}
use databend_meta.Types.SeqV.{SeqV, seq_of}
use databend_meta.Types.Upsert.{UpsertKv, delete_kv, update_kv, with_meta}
use databend_meta.KvTransaction.Operation.{
  Get, Put, Delete, DeleteByPrefix, FetchIncreaseU64, PutSequential, to_meta_spec, just_lookup,
}
use databend_meta.KvTransaction.Defs
use databend_meta.KvTransaction.Defs.{Operation, Branch, Transaction}
use databend_meta.Keys.Sequential.{build_key}
use databend_meta.StateMachine.Api.{StateMachineApi}
use databend_meta.StateMachine.Ext.{get_maybe_expired_kv}
use databend_meta.Applier.Response.{TxnPutResponse, FetchIncreaseU64Response, new_unchanged}
use databend_meta.Applier.Defs.{Applier, reads, upsert_kv, push_change, ◌>>=◌, pure}
use databend_meta.Applier.Evaluate.{eval_predicate}
use databend_meta.Applier.Execute.{
  execute_get, execute_put, execute_delete, delete_listed, execute_delete_by_prefix,
  store_increased, execute_fetch_increase_u64, execute_put_sequential, execute_op, put_upsert,
  delete_upsert, put_reply, delete_reply, increased, increased_reply, counter_of, guard_fails,
  fetch_increase_found, stored_u64,
}
use databend_meta.Applier.Transaction.{
  no_branch, branch_reply, execute_branch, execute_ops, apply_branches, apply_kv_transaction,
}

module _ (api : StateMachineApi) (P : Applier api → Type 0) where
  pub record Keeps {A : Type 0} (m : Action (Applier api) A) : Type 0 where
    pub at : (a : Applier api) (x : A) (a' : Applier api) → P a → m a ≡ (ok x, a') → P a'

module _ {api : StateMachineApi} {P : Applier api → Type 0} where
  pub Keeps-pure : {A : Type 0} (x : A) → Keeps api P (pure x)
  Keeps-pure {A = A} x = record {
    at = λ a y a' h e.
        let same : ◌≡◌ {A = Applier api} a a' = ap (λ (p : Result A × Applier api). p.1) e in
        subst P same h;
  }

  pub Keeps-reads : {A : Type 0} (f : Applier api → Result A) → Keeps api P (reads api f)
  Keeps-reads {A = A} f = record {
    at = λ a y a' h e.
        let same : ◌≡◌ {A = Applier api} a a' = ap (λ (p : Result A × Applier api). p.1) e in
        subst P same h;
  }

  pub Keeps-bind :
      {A B : Type 0} (m : Action (Applier api) A) (f : A → Action (Applier api) B)
      → Keeps api P m
      → ((x : A) → Keeps api P (f x))
      → Keeps api P (m >>= f)
  Keeps-bind m f km kf = record {
    at = λ a y a' h e.
        let (x, a1, first, then') = and_then-ok (m a) f e in
        (kf x).at a1 y a' (km.at a x a1 h first) then';
  }

  pub Keeps-if :
      {A : Type 0} (b : Bool) (m n : Action (Applier api) A)
      → Keeps api P m
      → Keeps api P n
      → Keeps api P (if b then m else n)
  Keeps-if true m n km kn = km
  Keeps-if false m n km kn = kn

  module _ (keeps_upsert : (u : UpsertKv) → Keeps api P (upsert_kv api u))
      (keeps_push : (key : Text) (prev result : Option (SeqV Bytes)) (a : Applier api)
        → P a
        → P (push_change api key prev result a)) where
    Keeps-delete_listed :
        (strm : IoStream (Text × SeqV Bytes)) (count : ℕ)
        → Keeps api P (delete_listed api strm count)
    unfolding delete_listed
    Keeps-delete_listed [] count = Keeps-pure count
    Keeps-delete_listed (err e ∷ strm) count = record { at = λ a y a' h e. cc }
    Keeps-delete_listed (ok (key, sv) ∷ strm) count =
        Keeps-bind (upsert_kv api (delete_kv key))
          (λ (prev, res) a1.
            delete_listed api strm ((count + 1) % u32_mod) (push_change api key prev res a1))
          (keeps_upsert (delete_kv key))
          (λ (prev, res). record {
            at = λ a y a' h.
                (Keeps-delete_listed strm ((count + 1) % u32_mod)).at
                  (push_change api key prev res a) y a' (keeps_push key prev res a h);
          })

    pub Keeps-then-pure :
        {A B : Type 0} (m : Action (Applier api) A) (g : A → B)
        → Keeps api P m
        → Keeps api P (m >>= λ x. pure (g x))
    Keeps-then-pure m g km = Keeps-bind m (λ x. pure (g x)) km (λ x. Keeps-pure (g x))

    Keeps-execute_get : (op : Get) → Keeps api P (execute_get api op)
    unfolding execute_get
    Keeps-execute_get op = Keeps-then-pure _ _ (Keeps-reads _)

    Keeps-execute_put : (op : Put) → Keeps api P (execute_put api op)
    unfolding execute_put
    Keeps-execute_put op =
        Keeps-then-pure (upsert_kv api (put_upsert op)) (put_reply api op.target.key)
          (keeps_upsert (put_upsert op))

    Keeps-execute_delete : (op : Delete) → Keeps api P (execute_delete api op)
    unfolding execute_delete
    Keeps-execute_delete op =
        Keeps-then-pure (upsert_kv api (delete_upsert op)) (delete_reply api op.target.key)
          (keeps_upsert (delete_upsert op))

    Keeps-execute_delete_by_prefix :
        (op : DeleteByPrefix) → Keeps api P (execute_delete_by_prefix api op)
    unfolding execute_delete_by_prefix
    Keeps-execute_delete_by_prefix op =
        Keeps-bind _ _ (Keeps-reads _) (λ strm. Keeps-then-pure _ _ (Keeps-delete_listed strm 0))

    Keeps-store_increased :
        (op : FetchIncreaseU64) (before_seq before : ℕ)
        → Keeps api P (store_increased api op before_seq before)
    unfolding store_increased
    Keeps-store_increased op before_seq before =
        let u = update_kv op.target.key (api.write_u64 (increased api op before)) in
        Keeps-then-pure (upsert_kv api u) (increased_reply api op before_seq before)
          (keeps_upsert u)

    Keeps-execute_fetch_increase_u64 :
        (op : FetchIncreaseU64) → Keeps api P (execute_fetch_increase_u64 api op)
    unfolding execute_fetch_increase_u64
    Keeps-execute_fetch_increase_u64 op =
        Keeps-bind (reads api (λ a. get_maybe_expired_kv api op.target.key a.sm))
          (λ found. fetch_increase_found api op (seq_of found) (stored_u64 api found))
          (Keeps-reads _)
          λ found.
            Keeps-if (guard_fails api op.target.match_seq (seq_of found))
              (pure (
                new_unchanged op.target.key (counter_of api (seq_of found) (stored_u64 api found))))
              (store_increased api op (seq_of found) (stored_u64 api found)) (Keeps-pure _)
              (Keeps-store_increased op (seq_of found) (stored_u64 api found))

    put_at : PutSequential → FetchIncreaseU64Response → Action (Applier api) TxnPutResponse
    put_at op fetched =
        let key = build_key op.prefix fetched.before in
        upsert_kv api (with_meta (update_kv key op.payload.value) (to_meta_spec op.payload))
        >>= λ changed. pure (put_reply api key changed)

    Keeps-execute_put_sequential :
        (op : PutSequential) → Keeps api P (execute_put_sequential api op)
    unfolding execute_put_sequential put_at
    Keeps-execute_put_sequential op =
        let counter : FetchIncreaseU64 = record {
          target = just_lookup op.sequence_key;
          delta = pos 1;
          floor = 0;
        } in
        Keeps-bind (execute_fetch_increase_u64 api counter) (put_at op)
          (Keeps-execute_fetch_increase_u64 counter)
          λ fetched.
            let key = build_key op.prefix fetched.before in
            let u = with_meta (update_kv key op.payload.value) (to_meta_spec op.payload) in
            Keeps-then-pure (upsert_kv api u) (put_reply api key) (keeps_upsert u)

    pub Keeps-execute_op : (op : Operation) → Keeps api P (execute_op api op)
    unfolding execute_op
    Keeps-execute_op (Defs.get op) = Keeps-then-pure _ _ (Keeps-execute_get op)
    Keeps-execute_op (Defs.put op) = Keeps-then-pure _ _ (Keeps-execute_put op)
    Keeps-execute_op (Defs.delete op) = Keeps-then-pure _ _ (Keeps-execute_delete op)
    Keeps-execute_op (Defs.delete_by_prefix op) =
        Keeps-then-pure _ _ (Keeps-execute_delete_by_prefix op)
    Keeps-execute_op (Defs.fetch_increase_u64 op) =
        Keeps-then-pure _ _ (Keeps-execute_fetch_increase_u64 op)
    Keeps-execute_op (Defs.put_sequential op) =
        Keeps-then-pure _ _ (Keeps-execute_put_sequential op)

    Keeps-execute_ops : (ops : List Operation) → Keeps api P (execute_ops api ops)
    unfolding execute_ops
    Keeps-execute_ops [] = Keeps-pure []
    Keeps-execute_ops (op ∷ ops) =
        Keeps-bind _ _ (Keeps-execute_op op) (λ r. Keeps-then-pure _ _ (Keeps-execute_ops ops))

    Keeps-apply_branches : (i : ℕ) (bs : List Branch) → Keeps api P (apply_branches api i bs)
    unfolding apply_branches
    Keeps-apply_branches i [] = Keeps-pure (no_branch api)
    Keeps-apply_branches i (b ∷ bs) =
        Keeps-bind (reads api (eval_predicate api b.predicate))
          (λ matched.
            if matched then execute_branch api i b.operations else apply_branches api (i + 1) bs)
          (Keeps-reads (eval_predicate api b.predicate))
          λ matched.
            Keeps-if matched (execute_branch api i b.operations) (apply_branches api (i + 1) bs)
              (Keeps-then-pure (execute_ops api b.operations) (branch_reply api i)
                (Keeps-execute_ops b.operations))
              (Keeps-apply_branches (i + 1) bs)

    pub Keeps-apply_kv_transaction :
        (txn : Transaction) → Keeps api P (apply_kv_transaction api txn)
    unfolding apply_kv_transaction
    Keeps-apply_kv_transaction txn = Keeps-apply_branches 0 txn.branches
