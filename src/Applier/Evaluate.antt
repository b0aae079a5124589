-- ===== src/Applier/Evaluate.antt =====
-- `eval_predicate`, `eval_condition` and `eval_compare`. They read and never write.
use databend_meta.Common.{
  ℕ, ◌+◌, ◌%◌, compare, Ordering, Bool, true, false, Option, none, some, [], ◌∷◌, Text, Bytes,
  Result, ok, err, IoStream, ◌>>=◌, if◌then◌else◌, take,
}
use Prim.Native.Nat.Ordering.{lt, eq, gt}
use databend_meta.Common.Int.{u64_mod}
use databend_meta.Types.SeqV.{SeqV, seq_of}
use databend_meta.KvTransaction.Defs
use databend_meta.KvTransaction.Defs.{
  Operand, CompareOperator, Condition, Predicate, Predicates, and_of, or_of, leaf,
}
use databend_meta.KvTransaction.Meaning.{is_nil}
use databend_meta.StateMachine.Api.{StateMachineApi}
use databend_meta.StateMachine.Ext.{get_maybe_expired_kv, list_kv}
use databend_meta.Applier.Defs.{Applier}

-- `Vec<u8>` compares lexicographically.
unfoldable pub compare_bytes : Bytes → Bytes → Ordering
compare_bytes [] [] = eq
compare_bytes [] (b ∷ bs) = lt
compare_bytes (a ∷ as') [] = gt
compare_bytes (a ∷ as') (b ∷ bs) =
    let rest = compare_bytes as' bs in elim (compare a b) [ lt ↦ lt | eq ↦ rest | gt ↦ gt ]

-- `eval_compare(left, op, right)`, from the order of `left` and `right`.
unfoldable pub eval_compare : Ordering → CompareOperator → Bool
eval_compare o Defs.eq = elim o [ eq ↦ true | _ ↦ false ]
eval_compare o Defs.ne = elim o [ eq ↦ false | _ ↦ true ]
eval_compare o Defs.lt = elim o [ lt ↦ true | _ ↦ false ]
eval_compare o Defs.le = elim o [ gt ↦ false | _ ↦ true ]
eval_compare o Defs.gt = elim o [ gt ↦ true | _ ↦ false ]
eval_compare o Defs.ge = elim o [ lt ↦ false | _ ↦ true ]

-- `try_fold(0, |acc, _| acc + 1)`
unfoldable pub count_items : {A : Type 0} → ℕ → IoStream A → Result ℕ
count_items acc [] = ok acc
count_items acc (err e ∷ strm) = err e
count_items acc (ok x ∷ strm) = count_items (acc + 1) strm

module _ (api : StateMachineApi) where
  abbrev pub eval_value : Option (SeqV Bytes) → CompareOperator → Bytes → Bool
  eval_value none op against = false
  eval_value (some stored) op against = eval_compare (compare_bytes stored.value against) op

  -- `against_n + 1` wraps in a release build.
  abbrev pub eval_count : Text → CompareOperator → ℕ → Applier api → Result Bool
  eval_count prefix op against_n a = list_kv api prefix a.sm >>= λ strm.
      count_items 0 (take ((against_n + 1) % u64_mod) strm) >>= λ count.
      ok (eval_compare (compare count against_n) op)

  abbrev pub eval_target : Condition → Operand → Option (SeqV Bytes) → Applier api → Result Bool
  eval_target c (Defs.seq against) found a = ok (eval_compare (compare (seq_of found) against) c.op)
  eval_target c (Defs.value against) found a = ok (eval_value found c.op against)
  eval_target c (Defs.keys_with_prefix n) found a = eval_count c.key c.op n a

  unfoldable pub eval_condition : Condition → Applier api → Result Bool
  unfolding get_maybe_expired_kv list_kv count_items eval_compare compare_bytes
  eval_condition c a =
      get_maybe_expired_kv api c.key a.sm >>= λ found. eval_target c c.target found a

  unfoldable mutual
    unfolding eval_condition

    pub eval_predicate : Predicate → Applier api → Result Bool
    eval_predicate (and_of ps) a = eval_all ps a
    eval_predicate (or_of ps) a = eval_any (is_nil ps) ps a
    eval_predicate (leaf c) a = eval_condition c a

    -- the loop of `And`: the first child that does not hold ends it
    pub eval_all : Predicates → Applier api → Result Bool
    eval_all Defs.nil a = ok true
    eval_all (Defs.cons p ps) a = eval_predicate p a >>= λ b. if b then eval_all ps a else ok false

    -- the loop of `Or`; after the last child the result is `children.is_empty()`
    pub eval_any : Bool → Predicates → Applier api → Result Bool
    eval_any is_empty Defs.nil a = ok is_empty
    eval_any is_empty (Defs.cons p ps) a =
        eval_predicate p a >>= λ b. if b then ok true else eval_any is_empty ps a
