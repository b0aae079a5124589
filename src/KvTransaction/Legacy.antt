-- ===== src/KvTransaction/Legacy.antt =====
-- A `TxnRequest`, as meta.proto describes it, against the transaction that it is converted to.
use databend_meta.Common.{
  ℕ, suc, ap, ◌+◌, ◌≡◌, refl, Bool, true, ◌&&◌, Option, none, some, List, [], ◌∷◌, ◌++◌, map, arith,
  length, if◌then◌else◌,
}
use native.Mathlib.Nat.{zero-add}
use databend_meta.KvTransaction.Defs.{Condition, Operation, Branch, and_of}
use databend_meta.KvTransaction.Meaning.{holds, holds_all, select}
use databend_meta.KvTransaction.Proto.{
  ProtoEnums, ConditionalOperation, TxnCondition, TxnOp, TxnRequest,
}
use databend_meta.KvTransaction.Build.Predicates.{always_true}
use databend_meta.KvTransaction.Convert.{
  condition_from_pb, operation_from_pb, branch_from_pb, leaves, else_branch,
  transaction_from_txn_request,
}

module _ (e : ProtoEnums) (v : Condition → Bool) where
  pub all_conditions : List TxnCondition → Bool
  all_conditions [] = true
  all_conditions (c ∷ cs) = v (condition_from_pb e c) && all_conditions cs

  abbrev else_choice : ℕ → List TxnOp → Option (ℕ × List Operation)
  else_choice i [] = none
  else_choice i ops = some (i, map operation_from_pb ops)

  abbrev if_choice : ℕ → TxnRequest → Option (ℕ × List Operation)
  if_choice i req =
      if all_conditions req.condition
      then some (i, map operation_from_pb req.if_then)
      else else_choice (i + 1) req.else_then

  abbrev first_of :
      Option (ℕ × List Operation) → Option (ℕ × List Operation) → Option (ℕ × List Operation)
  first_of none other = other
  first_of (some c) other = some c

  -- The order of meta.proto: the conditional operations, then `condition` with `if_then`, then
  -- `else_then`.
  pub legacy_choice : TxnRequest → Option (ℕ × List Operation)
  legacy_choice req =
      first_of (select v 0 (map (branch_from_pb e) req.operations))
        (if_choice (length req.operations) req)

  holds_all-leaves : (cs : List TxnCondition) → holds_all v (leaves e cs) ≡ all_conditions cs
  unfolding holds_all leaves all_conditions
  holds_all-leaves [] = refl
  holds_all-leaves (c ∷ cs) = ground (arith, holds_all-leaves cs)

  select-append :
      (i : ℕ) (xs ys : List Branch)
      → select v i (xs ++ ys) ≡ first_of (select v i xs) (select v (i + length xs) ys)
  unfolding select
  select-append i [] ys = ground arith
  select-append i (x ∷ xs) ys = ground (arith, select-append (i + 1) xs ys)

  holds-conditions : (cs : List TxnCondition) → holds v (and_of (leaves e cs)) ≡ all_conditions cs
  unfolding holds
  holds-conditions cs = holds_all-leaves cs

  select-else_branch :
      (i : ℕ) (ops : List TxnOp) → select v i (else_branch e ops) ≡ else_choice i ops
  unfolding select holds always_true
  select-else_branch i [] = refl
  select-else_branch i (op ∷ ops) = refl

  -- The last branches select what is left, from the index `i`.
  select_rest :
      (i : ℕ) (req : TxnRequest)
      → select v i (
          record {
            predicate = and_of (leaves e req.condition);
            operations = map operation_from_pb req.if_then;
          }
          ∷ else_branch e req.else_then)
        ≡ if_choice i req
  unfolding select
  select_rest i req = rw (holds-conditions req.condition, select-else_branch (i + 1) req.else_then)

  length-map-branches :
      (xs : List ConditionalOperation) → length (map (branch_from_pb e) xs) ≡ length xs
  length-map-branches [] = refl
  length-map-branches (x ∷ xs) = ap suc (length-map-branches xs)

  -- For every truth of the conditions, the converted transaction selects the first conditional
  -- operation that holds, else `if_then` where all conditions hold (with no condition they do),
  -- else `else_then` where it is not empty, else nothing; the index counts the conditional
  -- operations first.
  pub select-transaction_from_txn_request :
      (req : TxnRequest)
      → select v 0 (transaction_from_txn_request e req).branches ≡ legacy_choice req
  unfolding legacy_choice transaction_from_txn_request
  select-transaction_from_txn_request req =
      rw
        (
          select-append 0 (map (branch_from_pb e) req.operations),
          length-map-branches req.operations,
        )
        (rw (select_rest (0 + length req.operations) req, zero-add (length req.operations)))
