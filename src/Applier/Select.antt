-- ===== src/Applier/Select.antt =====
-- The branch that a transaction executes.
use databend_meta.Common.{
  ℕ, ◌+◌, ◌≡◌, refl, arith, Bool-cases, inl, inr, Bool, true, false, ◌||◌, Option, none, some, List,
  [], ◌∷◌, ok, Action,
}
use databend_meta.KvTransaction.Defs
use databend_meta.KvTransaction.Defs.{
  Condition, Predicate, Predicates, Operation, Branch, Transaction,
}
use databend_meta.KvTransaction.Meaning.{is_nil, holds, holds_all, holds_any, select}
use databend_meta.StateMachine.Api.{StateMachineApi}
use databend_meta.Applier.Response.{KvTransactionReply}
use databend_meta.Applier.Defs.{Applier, pure}
use databend_meta.Applier.Evaluate.{eval_condition, eval_predicate, eval_all, eval_any}
use databend_meta.Applier.Transaction.{
  no_branch, execute_branch, apply_branches, apply_kv_transaction,
}

module _ (api : StateMachineApi) (a : Applier api) (v : Condition → Bool)
    (conditions : (c : Condition) → eval_condition api c a ≡ ok (v c)) where
  mutual
    unfolding eval_predicate eval_all eval_any holds holds_all holds_any

    eval_predicate-holds : (p : Predicate) → eval_predicate api p a ≡ ok (holds v p)
    eval_predicate-holds (Defs.and_of ps) = eval_all-holds_all ps
    eval_predicate-holds (Defs.or_of ps) = eval_any-holds_any (is_nil ps) ps
    eval_predicate-holds (Defs.leaf c) = conditions c

    eval_all-holds_all : (ps : Predicates) → eval_all api ps a ≡ ok (holds_all v ps)
    eval_all-holds_all Defs.nil = refl
    eval_all-holds_all (Defs.cons p ps) =
        ground (arith, eval_predicate-holds p, eval_all-holds_all ps)

    eval_any-holds_any :
        (e : Bool) (ps : Predicates) → eval_any api e ps a ≡ ok (e || holds_any v ps)
    eval_any-holds_any true Defs.nil = refl
    eval_any-holds_any false Defs.nil = refl
    eval_any-holds_any e (Defs.cons p ps) =
        ground (arith, eval_predicate-holds p, eval_any-holds_any e ps)

  -- What the selected branch does.
  abbrev pub performed : Option (ℕ × List Operation) → Action (Applier api) KvTransactionReply
  performed none = pure (no_branch api)
  performed (some (i, ops)) = execute_branch api i ops

  apply_branches-select :
      (i : ℕ) (bs : List Branch) → apply_branches api i bs a ≡ performed (select v i bs) a
  unfolding apply_branches select
  apply_branches-select i [] = refl
  apply_branches-select i (b ∷ bs) =
      rw (eval_predicate-holds b.predicate) (elim (Bool-cases (holds v b.predicate)) [
        | inl e ↦ rw e
        | inr e ↦ rw e (apply_branches-select (i + 1) bs)
      ])

  -- Where every condition can be evaluated in the current state, to the truth that `v` gives it: a
  -- transaction executes the operations of the first branch whose predicate holds, in that state, and answers with
  -- its index; where none holds it changes nothing and answers with no index and no responses.
  pub apply_kv_transaction-select :
      (txn : Transaction) → apply_kv_transaction api txn a ≡ performed (select v 0 txn.branches) a
  unfolding apply_kv_transaction
  apply_kv_transaction-select txn = apply_branches-select 0 txn.branches
