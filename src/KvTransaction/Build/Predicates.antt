-- ===== src/KvTransaction/Build/Predicates.antt =====
-- `impl Predicate` of crates/server/types/src/kv_transaction/mod.rs
use databend_meta.Common.{ℕ, List, [], ◌∷◌, Bool, true, false, Text, Bytes}
use databend_meta.KvTransaction.Defs
use databend_meta.KvTransaction.Defs.{
  Operand, CompareOperator, eq, ne, lt, le, gt, ge, Predicate, Predicates, and_of, or_of, nil, cons,
}

-- `into_iter().collect()`
abbrev pub collect : List Predicate → Predicates
collect [] = nil
collect (p ∷ ps) = cons p (collect ps)

unfoldable pub always_true : Predicate
always_true = and_of nil

unfoldable pub is_always_true : Predicate → Bool
is_always_true (and_of nil) = true
is_always_true (or_of nil) = true
is_always_true _ = false

unfoldable pub all_of : List Predicate → Predicate
all_of predicates = and_of (collect predicates)

unfoldable pub any_of : List Predicate → Predicate
any_of predicates = or_of (collect predicates)

-- `Predicate::leaf`
unfoldable pub leaf : Text → CompareOperator → Operand → Predicate
leaf key op target = Defs.leaf (record { key = key; target = target; op = op })

unfoldable pub seq : Text → CompareOperator → ℕ → Predicate
unfolding leaf
seq key op n = leaf key op (Defs.seq n)

unfoldable pub value : Text → CompareOperator → Bytes → Predicate
unfolding leaf
value key op v = leaf key op (Defs.value v)

unfoldable pub keys_with_prefix : Text → CompareOperator → ℕ → Predicate
unfolding leaf
keys_with_prefix key op count = leaf key op (Defs.keys_with_prefix count)

-- `eq_seq`, `ne_seq`, `lt_seq`, `le_seq`, `gt_seq`, `ge_seq`
unfoldable pub eq_seq : Text → ℕ → Predicate
unfolding seq
eq_seq key n = seq key eq n

unfoldable pub ne_seq : Text → ℕ → Predicate
unfolding seq
ne_seq key n = seq key ne n

unfoldable pub lt_seq : Text → ℕ → Predicate
unfolding seq
lt_seq key n = seq key lt n

unfoldable pub le_seq : Text → ℕ → Predicate
unfolding seq
le_seq key n = seq key le n

unfoldable pub gt_seq : Text → ℕ → Predicate
unfolding seq
gt_seq key n = seq key gt n

unfoldable pub ge_seq : Text → ℕ → Predicate
unfolding seq
ge_seq key n = seq key ge n

-- `eq_value`, `ne_value`, `lt_value`, `le_value`, `gt_value`, `ge_value`
unfoldable pub eq_value : Text → Bytes → Predicate
unfolding value
eq_value key v = value key eq v

unfoldable pub ne_value : Text → Bytes → Predicate
unfolding value
ne_value key v = value key ne v

unfoldable pub lt_value : Text → Bytes → Predicate
unfolding value
lt_value key v = value key lt v

unfoldable pub le_value : Text → Bytes → Predicate
unfolding value
le_value key v = value key le v

unfoldable pub gt_value : Text → Bytes → Predicate
unfolding value
gt_value key v = value key gt v

unfoldable pub ge_value : Text → Bytes → Predicate
unfolding value
ge_value key v = value key ge v
