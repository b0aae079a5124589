-- ===== src/Keys/Sequential.antt =====
-- The keys of `PutSequential`: `build_key` and `format_seq_number` of
-- crates/common/proto/src/proto_ext/put_sequential_ext.rs.
use native.Mathlib.Nat.{div-add-mod', mod-lt, mul-le-mul_right, pow-suc}
use mathlib.Core.List.{append-nil, append_assoc}
use databend_meta.Common.{
  ap, sym, length, Bool-cases, ℕ, zero, suc, ◌+◌, ◌*◌, ◌/◌, ◌%◌, ◌^◌, ◌<◌, ◌≡◌, ◌∙◌, ◌⊎◌, inl, inr,
  refl, true, ◌&&◌, Text, [], ◌∷◌, ◌++◌, arith, ltb, ◌==◌, if◌then◌else◌,
}
use databend_meta.Keys.Order.{text_ltb}

-- `format!("{:0w$}", n)`: decimal, filled with zeros up to `w` digits; a number of more than `w`
-- digits is not formatted here.
unfoldable pub decimal : ℕ → ℕ → Text
decimal zero n = []
decimal (suc w) n = (n / 10 ^ w % 10 + b'0') ∷ decimal w (n % 10 ^ w)

-- The fold over the digits with their index `i`, and `acc` so far.
unfoldable pub group : ℕ → Text → Text → Text
group i acc [] = acc
group i acc (c ∷ cs) =
    group (i + 1) ((if ltb 0 i && i % 3 == 0 then acc ++ b'_' ∷ [] else acc) ++ c ∷ []) cs

-- A `u64` has at most 20 digits.
unfoldable pub format_seq_number : ℕ → Text
unfolding decimal group
format_seq_number n = group 0 [] (decimal 21 n)

unfoldable pub build_key : Text → ℕ → Text
unfolding format_seq_number
build_key prefix n = prefix ++ format_seq_number n

formatted :
    format_seq_number 1_200_123
    ≡ b'0' ∷ b'0' ∷ b'0' ∷ b'_' ∷ b'0' ∷ b'0' ∷ b'0' ∷ b'_' ∷ b'0' ∷ b'0' ∷ b'0' ∷ b'_' ∷ b'0'
      ∷ b'0' ∷ b'0' ∷ b'_' ∷ b'0' ∷ b'0' ∷ b'1' ∷ b'_' ∷ b'2' ∷ b'0' ∷ b'0' ∷ b'_' ∷ b'1' ∷ b'2'
      ∷ b'3' ∷ []
unfolding format_seq_number
formatted = refl

compare_cases : (a b : ℕ) → (a < b) ⊎ ((a ≡ b) ⊎ (b < a))
compare_cases a b = omega arith

-- Two numbers in mixed form: the quotients decide their order, and the remainders where those agree.
mixed_order : (a c r s p : ℕ) → s < p → a * p + r < c * p + s → (a < c) ⊎ ((a ≡ c) × (r < s))
mixed_order a c r s p hs h = elim (compare_cases a c) [
  | inl less ↦ inl less
  | inr (inl same) ↦ inr (same, omega (arith, ap (λ (t : ℕ). t * p) same))
  | inr (inr more) ↦ absurd (omega (arith, mul-le-mul_right p more))
]

quotient_small : (n p : ℕ) → n < p * 10 → n / p < 10
quotient_small n p h = elim (compare_cases (n / p) 10) [
  | inl less ↦ less
  | inr (inl same) ↦ absurd (omega (arith, div-add-mod' n p, ap (λ (t : ℕ). t * p) same))
  | inr (inr more) ↦ absurd (omega (arith, div-add-mod' n p, mul-le-mul_right p more))
]

quotient_step :
    (n m p : ℕ)
    → 0 < p
    → n < m
    → m < p * 10
    → (n / p % 10 < m / p % 10) ⊎ ((n / p % 10 ≡ m / p % 10) × (n % p < m % p))
quotient_step n m p hp h b =
    elim (mixed_order (n / p) (m / p) (n % p) (m % p) p (mod-lt m hp)
      (omega (arith, div-add-mod' n p, div-add-mod' m p))) [
        | inl less ↦ inl (omega (arith, quotient_small n p (omega arith), quotient_small m p b))
        | inr (same, less) ↦ inr (omega (arith, same), less)
      ]

pow_pos : (w : ℕ) → 0 < 10 ^ w
pow_pos zero = omega arith
pow_pos (suc w) = rw pow-suc (omega (arith, pow_pos w))

decimal_lt : (w n m : ℕ) → n < m → m < 10 ^ w → text_ltb (decimal w n) (decimal w m) ≡ true
unfolding decimal text_ltb
decimal_lt zero n m h b = absurd (omega arith)
decimal_lt (suc w) n m h b = elim (quotient_step n m (10 ^ w) (pow_pos w) h (rw pow-suc at b)) [
  | inl less ↦ ground arith
  | inr (same, less) ↦
      ground (arith, decimal_lt w (n % 10 ^ w) (m % 10 ^ w) less (mod-lt m (pow_pos w)))
]

-- The groups that are left, without the accumulator.
abbrev grouped : ℕ → Text → Text
grouped i [] = []
grouped i (c ∷ cs) =
    if ltb 0 i && i % 3 == 0 then b'_' ∷ c ∷ grouped (i + 1) cs else c ∷ grouped (i + 1) cs

group-grouped : (i : ℕ) (acc cs : Text) → group i acc cs ≡ acc ++ grouped i cs
unfolding group
group-grouped i acc [] = rw append-nil
group-grouped i acc (c ∷ cs) = elim (Bool-cases (ltb 0 i && i % 3 == 0)) [
  | inl e ↦ rw (e, group-grouped (i + 1) ((acc ++ b'_' ∷ []) ++ c ∷ []) cs) (simp append_assoc)
  | inr e ↦ rw (e, group-grouped (i + 1) (acc ++ c ∷ []) cs) (simp append_assoc)
]

-- Separators at the same places keep the order of texts of one length.
grouped_lt :
    (i : ℕ) (xs ys : Text)
    → length xs ≡ length ys
    → text_ltb xs ys ≡ true
    → text_ltb (grouped i xs) (grouped i ys) ≡ true
unfolding text_ltb
grouped_lt i xs [] e h = cc
grouped_lt i [] (y ∷ ys) e h = absurd (omega (arith, e))
grouped_lt i (x ∷ xs) (y ∷ ys) e h = ground (arith, grouped_lt (i + 1) xs ys (omega (arith, e)))

length-decimal : (w n : ℕ) → length (decimal w n) ≡ w
unfolding decimal
length-decimal zero n = refl
length-decimal (suc w) n = ap suc (length-decimal w (n % 10 ^ w))

text_ltb-append : (p xs ys : Text) → text_ltb (p ++ xs) (p ++ ys) ≡ text_ltb xs ys
unfolding text_ltb
text_ltb-append [] xs ys = refl
text_ltb-append (c ∷ p) xs ys = ground (arith, text_ltb-append p xs ys)

-- Of two numbers below 10 ^ 21 (every `u64` is) the less one gets the key that sorts first, under
-- any one prefix: keys of `PutSequential` are listed in the order of their numbers.
pub build_key_order :
    (prefix : Text) (n m : ℕ)
    → n < m
    → m < 10 ^ 21
    → text_ltb (build_key prefix n) (build_key prefix m) ≡ true
unfolding build_key
build_key_order prefix n m h b =
    rw (text_ltb-append, group-grouped 0 [] (decimal 21 n), group-grouped 0 [] (decimal 21 m))
      (grouped_lt 0 (decimal 21 n) (decimal 21 m) (length-decimal 21 n ∙ sym (length-decimal 21 m))
        (decimal_lt 21 n m h b))
