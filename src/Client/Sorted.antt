-- ===== src/Client/Sorted.antt =====
-- The nodes of endpoints.rs stand in ascending order, so each stands at one place.
use databend_meta.Common.{
  ℕ, zero, suc, ◌<◌, ◌≡◌, refl, sym, ap, true, false, some, List, [], ◌∷◌, arith, Text, text_eq,
  text_eq_sound, text_eq_refl, length, get_elem?, All, Bool-cases, inl, inr,
}
use databend_meta.Keys.Order.{text_ltb}
use databend_meta.Client.Endpoints.{insert, contains_key, collect, position}

text_ltb_ne : (a b : Text) → text_ltb a b ≡ true → text_eq a b ≡ false
unfolding text_ltb text_eq
text_ltb_ne a [] h = ground arith
text_ltb_ne [] (y ∷ ys) h = refl
text_ltb_ne (x ∷ xs) (y ∷ ys) h = ground (arith, text_ltb_ne xs ys)

text_ltb_trans : (a b c : Text) → text_ltb a b ≡ true → text_ltb b c ≡ true → text_ltb a c ≡ true
unfolding text_ltb
text_ltb_trans a b [] h k = ground arith
text_ltb_trans a [] (z ∷ zs) h k = ground arith
text_ltb_trans [] (y ∷ ys) (z ∷ zs) h k = refl
text_ltb_trans (x ∷ xs) (y ∷ ys) (z ∷ zs) h k = ground (arith, text_ltb_trans xs ys zs)

text_ltb_total : (a b : Text) → text_eq a b ≡ false → text_ltb a b ≡ false → text_ltb b a ≡ true
unfolding text_ltb text_eq
text_ltb_total [] [] e h = ground arith
text_ltb_total [] (y ∷ ys) e h = ground arith
text_ltb_total (x ∷ xs) [] e h = refl
text_ltb_total (x ∷ xs) (y ∷ ys) e h = ground (arith, text_ltb_total xs ys)

abbrev Above : Text → List Text → Type 0
Above k js = All (λ j. text_ltb k j ≡ true) js

abbrev pub Ascending : List Text → Type 0
Ascending [] = Unit
Ascending (k ∷ js) = Above k js × Ascending js

Above-trans : (k j : Text) (js : List Text) → text_ltb k j ≡ true → Above j js → Above k js
Above-trans k j [] h a = tt
Above-trans k j (i ∷ is) h a = (text_ltb_trans k j i h a.0, Above-trans k j is h a.1)

Above-insert :
    (k j : Text) (js : List Text) → text_ltb j k ≡ true → Above j js → Above j (insert k js)
unfolding insert
Above-insert k j [] h a = (h, tt)
Above-insert k j (i ∷ is) h a = ground (arith, Above-insert k j is h a.1)

pub insert-Ascending : (k : Text) (js : List Text) → Ascending js → Ascending (insert k js)
unfolding insert
insert-Ascending k [] h = (tt, tt)
insert-Ascending k (j ∷ js) h =
    ground (
      arith,
      text_ltb_total k j,
      Above-trans k j js,
      Above-insert k j js,
      insert-Ascending k js h.1,
    )

pub collect-Ascending : (ks : List Text) → Ascending (collect ks)
unfolding collect
collect-Ascending [] = tt
collect-Ascending (k ∷ ks) = insert-Ascending k (collect ks) (collect-Ascending ks)

Above-get :
    (k : Text) (js : List Text) (i : ℕ) (c : Text)
    → Above k js
    → get_elem? js i ≡ some c
    → text_ltb k c ≡ true
Above-get k [] i c a h = cc
Above-get k (j ∷ js) zero c a h = let same : j ≡ c = cc in rw (sym same) a.0
Above-get k (j ∷ js) (suc i) c a h = Above-get k js i c a.1 h

-- In ascending nodes, what stands at an index is found there.
pub position-get :
    (js : List Text) (i : ℕ) (c : Text)
    → Ascending js
    → get_elem? js i ≡ some c
    → position c js ≡ some i
unfolding position
position-get [] i c a h = cc
position-get (j ∷ js) zero c a h = let same : j ≡ c = cc in rw (same, text_eq_refl c)
position-get (j ∷ js) (suc i) c a h =
    rw (text_ltb_ne j c (Above-get j js i c a.0 h), position-get js i c a.1 h)

pub get-contains_key :
    (js : List Text) (c : Text) → contains_key js c ≡ true → (i : ℕ) × (get_elem? js i ≡ some c)
unfolding contains_key
get-contains_key [] c h = cc
get-contains_key (j ∷ js) c h = elim (Bool-cases (text_eq j c)) [
  | inl e ↦ (0, ap (λ x. some x) (text_eq_sound j c e))
  | inr e ↦ let (i, at) = get-contains_key js c (ground arith) in (suc i, at)
]

pub contains_key-get :
    (js : List Text) (i : ℕ) (c : Text) → get_elem? js i ≡ some c → contains_key js c ≡ true
unfolding contains_key
contains_key-get [] i c h = cc
contains_key-get (j ∷ js) zero c h = let same : j ≡ c = cc in rw (same, text_eq_refl c)
contains_key-get (j ∷ js) (suc i) c h = ground (arith, contains_key-get js i c h)

pub get-length : (js : List Text) (i : ℕ) (c : Text) → get_elem? js i ≡ some c → i < length js
get-length [] i c h = cc
get-length (j ∷ js) zero c h = omega arith
get-length (j ∷ js) (suc i) c h = omega (arith, get-length js i c h)

pub length-get : (js : List Text) (i : ℕ) → i < length js → (c : Text) × (get_elem? js i ≡ some c)
length-get [] i h = absurd (omega arith)
length-get (j ∷ js) zero h = (j, refl)
length-get (j ∷ js) (suc i) h = length-get js i (omega arith)
