-- ===== src/Common/Sort.antt =====
-- `slice::sort` of the standard library, as insertion sort, for elements with an `Ord`.
use Prim.Native.Nat.{ℕ, zero, suc, ◌<◌, Ordering}
use mathlib.Core.Path.{◌≡◌, refl, sym, subst}
use mathlib.Core.Logic.{◌≢◌, ◌⊎◌, inl, inr}
use mathlib.Core.Option.{Option, none, some}
use mathlib.Core.List.{List, [], ◌∷◌}
use native.Mathlib.Omega.{arith}
use databend_meta.Common.Lists.{All, Has, length, take}

-- `Ordering::then`
abbrev pub then_cmp : Ordering → Ordering → Ordering
then_cmp Ordering.lt o = Ordering.lt
then_cmp Ordering.gt o = Ordering.gt
then_cmp Ordering.eq o = o

module _ {A : Type 0} where
  -- A total order; equal elements are one.
  pub record IsOrder (cmp : A → A → Ordering) : Type 0 where
    pub self : (a : A) → cmp a a ≡ Ordering.eq
    pub eq : (a b : A) → cmp a b ≡ Ordering.eq → a ≡ b
    pub swap : (a b : A) → cmp a b ≡ Ordering.gt → cmp b a ≡ Ordering.lt
    pub trans : (a b c : A) → cmp a b ≡ Ordering.lt → cmp b c ≡ Ordering.lt → cmp a c ≡ Ordering.lt

  abbrev pub Distinct : List A → Type 0
  Distinct [] = Unit
  Distinct (x ∷ xs) = All (λ y. x ≢ y) xs × Distinct xs

  abbrev pub drop : ℕ → List A → List A
  drop zero xs = xs
  drop (suc n) [] = []
  drop (suc n) (x ∷ xs) = drop n xs

  abbrev pub last : List A → Option A
  last [] = none
  last (x ∷ []) = some x
  last (x ∷ y ∷ xs) = last (y ∷ xs)

  pub All-Has : (P : A → Type 0) (xs : List A) (x : A) → All P xs → Has x xs → P x
  All-Has P [] x h m = absurd m
  All-Has P (y ∷ ys) x (p, ps) (inl e) = subst P (sym e) p
  All-Has P (y ∷ ys) x (p, ps) (inr h) = All-Has P ys x ps h

  pub Has-All : (P : A → Type 0) (xs : List A) → ((x : A) → Has x xs → P x) → All P xs
  Has-All P [] h = tt
  Has-All P (x ∷ xs) h = (h x (inl refl), Has-All P xs λ y m. h y (inr m))

  pub Has-take : (n : ℕ) (xs : List A) (x : A) → Has x (take n xs) → Has x xs
  Has-take zero xs x h = absurd h
  Has-take (suc n) [] x h = absurd h
  Has-take (suc n) (y ∷ ys) x (inl e) = inl e
  Has-take (suc n) (y ∷ ys) x (inr h) = inr (Has-take n ys x h)

  pub Has-drop : (n : ℕ) (xs : List A) (x : A) → Has x (drop n xs) → Has x xs
  Has-drop zero xs x h = h
  Has-drop (suc n) [] x h = absurd h
  Has-drop (suc n) (y ∷ ys) x h = inr (Has-drop n ys x h)

  pub Has-take_or_drop :
      (n : ℕ) (xs : List A) (x : A) → Has x xs → Has x (take n xs) ⊎ Has x (drop n xs)
  Has-take_or_drop zero xs x h = inr h
  Has-take_or_drop (suc n) [] x h = absurd h
  Has-take_or_drop (suc n) (y ∷ ys) x (inl e) = inl (inl e)
  Has-take_or_drop (suc n) (y ∷ ys) x (inr h) = elim (Has-take_or_drop n ys x h) [
    | inl m ↦ inl (inr m)
    | inr m ↦ inr m
  ]

module _ {A : Type 0} where
  pub last-Has : (xs : List A) (m : A) → last xs ≡ some m → Has m xs
  last-Has [] m l = cc
  last-Has (x ∷ []) m l = inl (cc)
  last-Has (x ∷ y ∷ xs) m l = inr (last-Has (y ∷ xs) m l)

  pub Has-last : (xs : List A) (x : A) → Has x xs → (m : A) × (last xs ≡ some m)
  Has-last [] x h = absurd h
  Has-last (y ∷ []) x h = (y, refl)
  Has-last (y ∷ z ∷ zs) x h = Has-last (z ∷ zs) z (inl refl)

  pub last-drop : (n : ℕ) (xs : List A) → n < length xs → last (drop n xs) ≡ last xs
  last-drop zero xs h = refl
  last-drop (suc n) [] h = absurd (omega arith)
  last-drop (suc n) (x ∷ []) h = absurd (omega arith)
  last-drop (suc n) (x ∷ y ∷ xs) h = last-drop n (y ∷ xs) (omega arith)

module _ {A : Type 0} (cmp : A → A → Ordering) where
  unfoldable pub insert : A → List A → List A
  insert x [] = x ∷ []
  insert x (y ∷ ys) = elim (cmp x y) [ Ordering.lt ↦ x ∷ y ∷ ys | _ ↦ y ∷ insert x ys ]

  unfoldable pub sort : List A → List A
  unfolding insert
  sort [] = []
  sort (x ∷ xs) = insert x (sort xs)

  abbrev pub Ascending : List A → Type 0
  Ascending [] = Unit
  Ascending (x ∷ xs) = All (λ y. cmp x y ≡ Ordering.lt) xs × Ascending xs
