-- ===== src/KvTransaction/Meaning.antt =====
-- What the predicates of a transaction mean, given the truth of each condition, and which branch
-- such a meaning selects. This is the reference that the evaluator and the conversions are held to.
use databend_meta.Common.{
  ℕ, ◌+◌, Bool, true, false, ◌&&◌, ◌||◌, Option, none, some, List, [], ◌∷◌, if◌then◌else◌,
}
use databend_meta.KvTransaction.Defs.{
  Condition, Predicate, Predicates, and_of, or_of, leaf, nil, cons, Operation, Branch,
}

abbrev pub is_nil : Predicates → Bool
is_nil nil = true
is_nil (cons p ps) = false

-- An empty disjunction holds, as an empty conjunction does.
unfoldable mutual
  pub holds : (Condition → Bool) → Predicate → Bool
  holds v (and_of ps) = holds_all v ps
  holds v (or_of ps) = is_nil ps || holds_any v ps
  holds v (leaf c) = v c

  pub holds_all : (Condition → Bool) → Predicates → Bool
  holds_all v nil = true
  holds_all v (cons p ps) = holds v p && holds_all v ps

  pub holds_any : (Condition → Bool) → Predicates → Bool
  holds_any v nil = false
  holds_any v (cons p ps) = holds v p || holds_any v ps

-- The first branch whose predicate holds, with its index counted from `i`.
unfoldable pub select : (Condition → Bool) → ℕ → List Branch → Option (ℕ × List Operation)
select v i [] = none
select v i (b ∷ bs) = if holds v b.predicate then some (i, b.operations) else select v (i + 1) bs
