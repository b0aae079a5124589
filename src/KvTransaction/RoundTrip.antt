-- ===== src/KvTransaction/RoundTrip.antt =====
-- Transactions over the wire: conversion keeps which branch is selected and what it executes.
use databend_meta.Common.{ℕ, ◌+◌, ◌≡◌, refl, Bool, true, ◌&&◌, ◌||◌, List, [], ◌∷◌, map, arith, ap}
use databend_meta.KvTransaction.Defs
use databend_meta.KvTransaction.Defs.{
  Condition, Predicate, Predicates, and_of, or_of, leaf, Branch, Transaction,
}
use databend_meta.KvTransaction.Meaning.{is_nil, holds, holds_all, holds_any, select}
use databend_meta.KvTransaction.Proto.{
  ProtoEnums, ReadsMembers, CombiningOperator, and_, or_, operator_code, Expressions,
  BooleanExpression, TxnCondition,
}
use databend_meta.KvTransaction.Proto
use databend_meta.KvTransaction.Proto.{expression}
use databend_meta.KvTransaction.Build.Predicates.{is_always_true, always_true}
use databend_meta.KvTransaction.Convert.{
  leaves, extend, combine, predicate_to_pb, split_children, predicate_from_pb, predicates_from_pb,
  condition_to_pb, branch_to_pb, branch_from_pb, transaction_to_pb, transaction_from_pb,
}
use databend_meta.KvTransaction.Conditions.{condition_from_pb-condition_to_pb, map-operations}

module _ (e : ProtoEnums) (v : Condition → Bool) where
  holds_all-extend :
      (ps qs : Predicates) → holds_all v (extend e ps qs) ≡ (holds_all v ps && holds_all v qs)
  unfolding holds_all extend
  holds_all-extend Defs.nil qs = refl
  holds_all-extend (Defs.cons p ps) qs = ground (arith, holds_all-extend ps qs)

  holds_any-extend :
      (ps qs : Predicates) → holds_any v (extend e ps qs) ≡ (holds_any v ps || holds_any v qs)
  unfolding holds_any extend
  holds_any-extend Defs.nil qs = refl
  holds_any-extend (Defs.cons p ps) qs = ground (arith, holds_any-extend ps qs)

  is_nil-extend : (ps qs : Predicates) → is_nil (extend e ps qs) ≡ (is_nil ps && is_nil qs)
  unfolding extend
  is_nil-extend Defs.nil qs = refl
  is_nil-extend (Defs.cons p ps) qs = refl

  pub holds-combine_and : (ps : Predicates) → holds v (combine e and_ ps) ≡ holds_all v ps
  unfolding holds combine
  holds-combine_and Defs.nil = refl
  holds-combine_and (Defs.cons p Defs.nil) = ground arith
  holds-combine_and (Defs.cons p (Defs.cons q ps)) = refl

  holds-combine_or : (ps : Predicates) → holds v (combine e or_ ps) ≡ (is_nil ps || holds_any v ps)
  unfolding holds combine
  holds-combine_or Defs.nil = refl
  holds-combine_or (Defs.cons p Defs.nil) = ground arith
  holds-combine_or (Defs.cons p (Defs.cons q ps)) = refl

-- What `split_children` keeps of a list of children, whatever their order.
record SameChildren (e : ProtoEnums) (v : Condition → Bool) (ps : Predicates) (subs : Expressions)
    (conditions : List TxnCondition) : Type 0 where
  all_same :
      (holds_all v (predicates_from_pb e subs) && holds_all v (leaves e conditions))
      ≡ holds_all v ps
  any_same :
      (holds_any v (predicates_from_pb e subs) || holds_any v (leaves e conditions))
      ≡ holds_any v ps
  nil_same : (is_nil (predicates_from_pb e subs) && is_nil (leaves e conditions)) ≡ is_nil ps

module _ (e : ProtoEnums) (h : ReadsMembers e) (v : Condition → Bool) where
  module _ (ps : Predicates) (subs : Expressions) (conditions : List TxnCondition)
      (same : SameChildren e v ps subs conditions) where
    conjunction_same :
        holds v (predicate_from_pb e (expression (operator_code and_) subs conditions))
        ≡ holds v (and_of ps)
    unfolding predicate_from_pb holds
    conjunction_same =
        rw (h.operator_code_lem and_, holds-combine_and, holds_all-extend) same.all_same

    disjunction_same :
        holds v (predicate_from_pb e (expression (operator_code or_) subs conditions))
        ≡ holds v (or_of ps)
    unfolding predicate_from_pb holds
    disjunction_same =
        rw
          (
            h.operator_code_lem or_,
            holds-combine_or,
            holds_any-extend,
            is_nil-extend,
            same.nil_same,
            same.any_same,
          )
          refl

    leaf_child :
        (c : Condition)
        → SameChildren e v (Defs.cons (leaf c) ps) subs (condition_to_pb c ∷ conditions)
    unfolding holds leaves
    leaf_child c = ground (
      arith,
      condition_from_pb-condition_to_pb e h c,
      same.all_same,
      same.any_same,
      same.nil_same,
    )

    other_child :
        (p : Predicate) (x : BooleanExpression)
        → holds v (predicate_from_pb e x) ≡ holds v p
        → SameChildren e v (Defs.cons p ps) (Proto.cons x subs) conditions
    unfolding holds_all predicates_from_pb
    other_child p x q = ground (arith, q, same.all_same, same.any_same, same.nil_same)

  no_child : SameChildren e v Defs.nil Proto.nil []
  unfolding holds leaves predicate_from_pb
  no_child = record { all_same = refl; any_same = refl; nil_same = refl }

  leaf_same :
      (c : Condition) → holds v (predicate_from_pb e (predicate_to_pb (leaf c))) ≡ holds v (leaf c)
  unfolding predicate_from_pb predicate_to_pb holds
  leaf_same c = ap v (condition_from_pb-condition_to_pb e h c)

  mutual
    unfolding predicate_to_pb

    same_meaning : (p : Predicate) → holds v (predicate_from_pb e (predicate_to_pb p)) ≡ holds v p
    same_meaning (and_of ps) =
        let (subs, conditions) = split_children ps in
        conjunction_same ps subs conditions (same_children ps)
    same_meaning (or_of ps) =
        let (subs, conditions) = split_children ps in
        disjunction_same ps subs conditions (same_children ps)
    same_meaning (leaf c) = leaf_same c

    same_children :
        (ps : Predicates) → SameChildren e v ps (split_children ps).0 (split_children ps).1
    same_children Defs.nil = no_child
    same_children (Defs.cons (leaf c) ps) =
        leaf_child ps (split_children ps).0 (split_children ps).1 (same_children ps) c
    same_children (Defs.cons (and_of qs) ps) =
        other_child ps (split_children ps).0 (split_children ps).1 (same_children ps) (and_of qs)
          (predicate_to_pb (and_of qs)) (same_meaning (and_of qs))
    same_children (Defs.cons (or_of qs) ps) =
        other_child ps (split_children ps).0 (split_children ps).1 (same_children ps) (or_of qs)
          (predicate_to_pb (or_of qs)) (same_meaning (or_of qs))

module _ (e : ProtoEnums) (h : ReadsMembers e) (v : Condition → Bool) where
  holds-always_true : (p : Predicate) → is_always_true p ≡ true → holds v p ≡ true
  unfolding is_always_true holds
  holds-always_true (and_of Defs.nil) q = refl
  holds-always_true (and_of (Defs.cons p ps)) q = cc
  holds-always_true (or_of Defs.nil) q = refl
  holds-always_true (or_of (Defs.cons p ps)) q = cc
  holds-always_true (leaf c) q = cc

  branch_same :
      (b : Branch) → holds v (branch_from_pb e (branch_to_pb b)).predicate ≡ holds v b.predicate
  unfolding branch_from_pb branch_to_pb
  branch_same b = ground (
    arith,
    same_meaning e h v b.predicate,
    holds-always_true b.predicate,
    holds-always_true always_true (unfold is_always_true always_true in refl),
  )

  operations_same : (b : Branch) → (branch_from_pb e (branch_to_pb b)).operations ≡ b.operations
  unfolding branch_from_pb branch_to_pb
  operations_same b = map-operations b.operations

  -- `first` is the index of the first branch.
  select_same :
      (bs : List Branch) (first : ℕ)
      → select v first (map (branch_from_pb e) (map branch_to_pb bs)) ≡ select v first bs
  unfolding select
  select_same [] first = refl
  select_same (b ∷ bs) first =
      rw (branch_same b, operations_same b, select_same bs (first + 1)) refl

  -- Where the generated enum accessors read a member's number as that member: a transaction that
  -- was sent as a `KvTransactionRequest` and read back selects, for every truth of the conditions,
  -- the branch of the same index with the same operations, or none where the original selects none.
  pub select-transaction_from_pb :
      (t : Transaction)
      → select v 0 (transaction_from_pb e (transaction_to_pb t)).branches ≡ select v 0 t.branches
  unfolding transaction_from_pb transaction_to_pb
  select-transaction_from_pb t = select_same t.branches 0
