-- ===== src/Common/Maps.antt =====
-- `BTreeMap` with number keys and `BTreeSet` of texts, as ascending lists.
use databend_meta.Common.Tests.{Text, ltb, ◌==◌, if◌then◌else◌, text_eq, text_eq_iff}
use Prim.Native.Nat.{ℕ}
use mathlib.Core.Path.{◌≡◌, refl}
use mathlib.Core.Bool.{Bool, false, ◌||◌}
use mathlib.Core.Option.{Option, none, some}
use mathlib.Core.List.{List, [], ◌∷◌}
use native.Mathlib.Omega.{arith}

module _ {V : Type 0} where
  pub get : List (ℕ × V) → ℕ → Option V
  get [] k = none
  get ((j, v) ∷ m) k = if j == k then some v else get m k

  pub insert : List (ℕ × V) → ℕ → V → List (ℕ × V)
  insert [] k v = (k, v) ∷ []
  insert ((j, w) ∷ m) k v =
      if j == k then (k, v) ∷ m else if ltb k j then (k, v) ∷ (j, w) ∷ m else (j, w) ∷ insert m k v

  pub remove : List (ℕ × V) → ℕ → List (ℕ × V)
  remove [] k = []
  remove ((j, w) ∷ m) k = let rest = remove m k in if j == k then rest else (j, w) ∷ rest

  pub get-insert :
      (m : List (ℕ × V)) (k j : ℕ) (v : V)
      → get (insert m k v) j ≡ (if k == j then some v else get m j)
  unfolding get insert
  get-insert [] k j v = refl
  get-insert ((i, w) ∷ m) k j v = ground (arith, get-insert m k j v)

  pub get-remove :
      (m : List (ℕ × V)) (k j : ℕ) → get (remove m k) j ≡ (if k == j then none else get m j)
  unfolding get remove
  get-remove [] k j = ground arith
  get-remove ((i, w) ∷ m) k j = ground (arith, get-remove m k j)

-- The elements of a set are told apart only by membership, so their order is not modelled.
unfoldable pub contains : List Text → Text → Bool
contains [] k = false
contains (j ∷ m) k = text_eq j k || contains m k

pub insert_text : List Text → Text → List Text
unfolding contains
insert_text m k = if contains m k then m else k ∷ m

unfoldable pub remove_text : List Text → Text → List Text
remove_text [] k = []
remove_text (j ∷ m) k = let rest = remove_text m k in if text_eq j k then rest else j ∷ rest

pub contains-insert_text :
    (m : List Text) (k j : Text) → contains (insert_text m k) j ≡ (text_eq k j || contains m j)
unfolding contains insert_text
contains-insert_text m k j = ground (arith, text_eq_iff k j)

pub contains-remove_text :
    (m : List Text) (k j : Text)
    → contains (remove_text m k) j ≡ (if text_eq k j then false else contains m j)
unfolding contains remove_text
contains-remove_text [] k j = ground arith
contains-remove_text (i ∷ m) k j =
    ground (arith, contains-remove_text m k j, text_eq_iff i k, text_eq_iff i j, text_eq_iff k j)
