-- ===== src/Common/Decimal.antt =====
-- Decimal numbers: `Display` and `parse` of the unsigned integers of the standard library.
use native.Mathlib.Nat.{pow-suc}
use databend_meta.Common.Tests.{Text, ltb, leb, ◌==◌, if◌then◌else◌, Bool-cases}
use databend_meta.Common.Lists.{All, All-append}
use Prim.Native.Nat.{ℕ, zero, suc, ◌+◌, ◌-◌, ◌*◌, ◌/◌, ◌%◌, ◌^◌, ◌≤◌, ◌<◌}
use mathlib.Core.Path.{◌≡◌, refl, sym, ◌∙◌}
use mathlib.Core.Logic.{◌≢◌, inl, inr}
use mathlib.Core.Bool.{◌&&◌}
use mathlib.Core.Option.{Option, none, some}
use mathlib.Core.List.{[], ◌∷◌, ◌++◌}
use native.Mathlib.Omega.{arith}

-- The digits of a number that has at most as many as the fuel; a `u64` has at most twenty.
unfoldable pub digits : ℕ → ℕ → Text
digits zero n = []
digits (suc fuel) n =
    let rest = digits fuel (n / 10) in
    if ltb n 10 then (48 + n) ∷ [] else rest ++ ((48 + n % 10) ∷ [])

-- Digits after the number read so far; `none` where a character is no digit or the number reaches the limit.
unfoldable pub read_digits : ℕ → ℕ → Text → Option ℕ
read_digits limit n [] = some n
read_digits limit n (c ∷ cs) =
    let n' = n * 10 + (c - 48) in
    let rest = read_digits limit n' cs in
    if leb 48 c && leb c 57 && ltb n' limit then rest else none

abbrev pub after_sign : ℕ → Text → Option ℕ
unfolding read_digits
after_sign limit [] = none
after_sign limit (c ∷ cs) = read_digits limit 0 (c ∷ cs)

-- A leading plus sign is passed over.
unfoldable pub parse_uint : ℕ → Text → Option ℕ
unfolding read_digits
parse_uint limit [] = none
parse_uint limit (c ∷ cs) = if c == 43 then after_sign limit cs else after_sign limit (c ∷ cs)

abbrev pub IsDigit : ℕ → Type 0
IsDigit c = (48 ≤ c) × (c ≤ 57)

pub digits-IsDigit : (fuel n : ℕ) → All IsDigit (digits fuel n)
unfolding digits
digits-IsDigit zero n = tt
digits-IsDigit (suc fuel) n = elim (Bool-cases (ltb n 10)) [
  | inl e ↦ rw e ((ground arith, ground arith), tt)
  | inr e ↦
      rw e (All-append IsDigit _ _ (digits-IsDigit fuel (n / 10)) ((omega arith, omega arith), tt))
]

-- A print ends in a digit.
pub digits_end :
    (fuel n : ℕ) → (xs : Text) × (c : ℕ) × (digits (suc fuel) n ≡ xs ++ c ∷ []) × (c < 58)
unfolding digits
digits_end fuel n = elim (Bool-cases (ltb n 10)) [
  | inl e ↦ ([], 48 + n, rw e, ground arith)
  | inr e ↦ (digits fuel (n / 10), 48 + n % 10, rw e, omega arith)
]

read_digits-append :
    (limit n m : ℕ) (xs ys : Text)
    → read_digits limit n xs ≡ some m
    → read_digits limit n (xs ++ ys) ≡ read_digits limit m ys
unfolding read_digits
read_digits-append limit n m [] ys h = ground arith
read_digits-append limit n m (c ∷ cs) ys h =
    ground (arith, read_digits-append limit (n * 10 + (c - 48)) m cs ys)

read_last : (limit n : ℕ) → n < limit → read_digits limit (n / 10) ((48 + n % 10) ∷ []) ≡ some n
unfolding read_digits
read_last limit n h = ground arith

read_digits-digits :
    (fuel limit n : ℕ) → n < 10 ^ fuel → n < limit → read_digits limit 0 (digits fuel n) ≡ some n
unfolding digits
read_digits-digits zero limit n h fits = unfold read_digits in ground arith
read_digits-digits (suc fuel) limit n h fits = elim (Bool-cases (ltb n 10)) [
  | inl e ↦ rw e (unfold read_digits in ground arith)
  | inr e ↦
      let before =
        read_digits-digits fuel limit (n / 10) (omega (arith, rw pow-suc at h)) (omega arith) in
      rw (e, read_digits-append limit 0 (n / 10) (digits fuel (n / 10)) ((48 + n % 10) ∷ []) before)
        (read_last limit n fits)
]

parse_uint-read_digits :
    (limit : ℕ) (s : Text) → s ≢ [] → All IsDigit s → parse_uint limit s ≡ read_digits limit 0 s
unfolding parse_uint
parse_uint-read_digits limit [] ne d = absurd (ne refl)
parse_uint-read_digits limit (c ∷ cs) ne d = ground arith

snoc-ne-nil : (xs : Text) (c : ℕ) → xs ++ c ∷ [] ≢ []
snoc-ne-nil [] c = cc
snoc-ne-nil (x ∷ xs) c = cc

-- What is read is below the limit.
read_digits-lt : (limit n m : ℕ) (s : Text) → n < limit → read_digits limit n s ≡ some m → m < limit
unfolding read_digits
read_digits-lt limit n m [] h e = ground arith
read_digits-lt limit n m (c ∷ cs) h e =
    ground (arith, read_digits-lt limit (n * 10 + (c - 48)) m cs)

pub parse_uint-lt : (limit m : ℕ) (s : Text) → 0 < limit → parse_uint limit s ≡ some m → m < limit
unfolding parse_uint
parse_uint-lt limit m [] h e = cc
parse_uint-lt limit m (c ∷ []) h e = ground (arith, read_digits-lt limit 0 m (c ∷ []))
parse_uint-lt limit m (c ∷ d ∷ cs) h e =
    ground (arith, read_digits-lt limit 0 m (d ∷ cs), read_digits-lt limit 0 m (c ∷ d ∷ cs))

-- A number is read back from its print.
pub parse_uint-digits :
    (fuel limit n : ℕ)
    → n < 10 ^ suc fuel
    → n < limit
    → parse_uint limit (digits (suc fuel) n) ≡ some n
parse_uint-digits fuel limit n h fits =
    let (xs, c, e, small) = digits_end fuel n in
    parse_uint-read_digits limit (digits (suc fuel) n)
      (λ none_left. snoc-ne-nil xs c (sym e ∙ none_left)) (digits-IsDigit (suc fuel) n)
    ∙ read_digits-digits (suc fuel) limit n h fits
