-- ===== src/Common/Lists.antt =====
-- Lists measured and indexed by native numbers, and predicates over them.
use Prim.Native.Nat.{ℕ, zero, suc, ◌+◌, min}
use mathlib.Core.Path.{◌≡◌, refl, ap}
use mathlib.Core.Logic.{◌⊎◌, inl, inr}
use mathlib.Core.List.{List, [], ◌∷◌, ◌++◌, map}
use mathlib.Core.Option.{Option, none, some}
use native.Mathlib.Omega.{arith}

module _ {ℓ} {A : Type ℓ} where
  abbrev pub length : List A → ℕ
  length [] = 0
  length (x ∷ xs) = suc (length xs)

  abbrev pub get_elem? : List A → ℕ → Option A
  get_elem? [] i = none
  get_elem? (x ∷ xs) zero = some x
  get_elem? (x ∷ xs) (suc i) = get_elem? xs i

  abbrev pub take : ℕ → List A → List A
  take zero xs = []
  take (suc n) [] = []
  take (suc n) (x ∷ xs) = x ∷ take n xs

  pub length-append : (xs ys : List A) → length (xs ++ ys) ≡ length xs + length ys
  length-append [] ys = omega arith
  length-append (x ∷ xs) ys = omega (arith, length-append xs ys)

  pub length-take : (n : ℕ) (xs : List A) → length (take n xs) ≡ min n (length xs)
  length-take zero xs = omega arith
  length-take (suc n) [] = omega arith
  length-take (suc n) (x ∷ xs) = omega (arith, length-take n xs)

-- A predicate by recursion computes to tuples, which the tactics read and build.
abbrev pub All {ℓ κ} : {A : Type ℓ} → (A → Type κ) → List A → Type κ
All P [] = Unit
All P (x ∷ xs) = P x × All P xs

pub All-append {ℓ κ} :
    {A : Type ℓ} (P : A → Type κ) (xs ys : List A) → All P xs → All P ys → All P (xs ++ ys)
All-append P [] ys p q = q
All-append P (x ∷ xs) ys p q = (p.0, All-append P xs ys p.1 q)

-- Membership by recursion.
abbrev pub Has : {A : Type 0} → A → List A → Type 0
Has x [] = ⊥
Has x (y ∷ ys) = (x ≡ y) ⊎ Has x ys

pub Has-map :
    {A B : Type 0} (f : A → B) (xs : List A) (y : B)
    → Has y (map f xs)
    → (x : A) × Has x xs × (y ≡ f x)
Has-map f [] y h = absurd h
Has-map f (x ∷ xs) y (inl e) = (x, inl refl, e)
Has-map f (x ∷ xs) y (inr h) = let (z, m, e) = Has-map f xs y h in (z, inr m, e)

pub map-Has : {A B : Type 0} (f : A → B) (xs : List A) (x : A) → Has x xs → Has (f x) (map f xs)
map-Has f [] x h = absurd h
map-Has f (z ∷ xs) x (inl e) = inl (ap f e)
map-Has f (z ∷ xs) x (inr h) = inr (map-Has f xs x h)

module _ {A : Type 0} where
  pub Has-append : (xs ys : List A) (x : A) → Has x (xs ++ ys) → Has x xs ⊎ Has x ys
  Has-append [] ys x h = inr h
  Has-append (z ∷ xs) ys x (inl e) = inl (inl e)
  Has-append (z ∷ xs) ys x (inr h) = elim (Has-append xs ys x h) [
    | inl m ↦ inl (inr m)
    | inr m ↦ inr m
  ]

  pub append-Has : (xs ys : List A) (x : A) → Has x xs ⊎ Has x ys → Has x (xs ++ ys)
  append-Has [] ys x (inl h) = absurd h
  append-Has [] ys x (inr h) = h
  append-Has (z ∷ xs) ys x (inl (inl e)) = inl e
  append-Has (z ∷ xs) ys x (inl (inr h)) = inr (append-Has xs ys x (inl h))
  append-Has (z ∷ xs) ys x (inr h) = inr (append-Has xs ys x (inr h))
