-- ===== src/LeveledStore/Smallest.antt =====
-- The two adjacent levels that are compacted are the smallest.
use databend_meta.Common.{
  ℕ, zero, suc, ◌+◌, ◌%◌, ◌≤◌, ◌<◌, ◌≡◌, ◌∙◌, refl, sym, ap, arith, true, ltb, ltb→lt, ◌&&◌, some,
  List, [], ◌∷◌, Bool-cases, inl, inr, ◌⊎◌, subst,
}
use databend_meta.Common.Int.{u64_mod, u64_max}
use databend_meta.LeveledStore.Compact.{smaller, search, min_adjacent, size_at, fits}

smaller_lem :
    (size i : ℕ) (best : ℕ × ℕ)
    → ((smaller size i best).0 ≤ size)
      × ((smaller size i best).0 ≤ best.0)
      × ((smaller size i best ≡ best) ⊎ (smaller size i best ≡ (size, i)))
unfolding smaller
smaller_lem size i (m, j) = elim (Bool-cases (ltb size m)) [
  | inl less ↦ rw less (omega arith, ground arith, inr refl)
  | inr more ↦ rw more (ground arith, omega arith, inl refl)
]

fits-parts :
    (a b : ℕ) (rest : List ℕ)
    → fits (a ∷ b ∷ rest) ≡ true
    → (a + b < u64_mod) × (fits (b ∷ rest) ≡ true)
unfolding fits
fits-parts a b rest h = elim (Bool-cases (ltb (a + b) u64_mod)) [
  | inl below ↦ (ltb→lt (a + b) u64_mod below, sym (ap (λ t. t && fits (b ∷ rest)) below) ∙ h)
  | inr above ↦ cc
]

search_le : (i : ℕ) (sizes : List ℕ) (best : ℕ × ℕ) → (search i sizes best).0 ≤ best.0
unfolding search
search_le i [] best = omega arith
search_le i (a ∷ []) best = omega arith
search_le i (a ∷ b ∷ rest) best =
    let best' = smaller ((a + b) % u64_mod) i best in
    omega (arith, search_le (suc i) (b ∷ rest) best', (smaller_lem ((a + b) % u64_mod) i best).1)

search_smallest :
    (i : ℕ) (sizes : List ℕ) (best : ℕ × ℕ)
    → fits sizes ≡ true
    → (k s : ℕ) → size_at sizes k ≡ some s
    → (search i sizes best).0 ≤ s
unfolding search size_at
search_smallest i [] best h k s e = cc
search_smallest i (a ∷ []) best h k s e = cc
search_smallest i (a ∷ b ∷ rest) best h zero s e =
    let best' = smaller ((a + b) % u64_mod) i best in
    let small : (a + b) % u64_mod ≡ a + b = omega (arith, (fits-parts a b rest h).0) in
    let here : a + b ≡ s = cc in
    omega (
      arith,
      small,
      here,
      search_le (suc i) (b ∷ rest) best',
      (smaller_lem ((a + b) % u64_mod) i best).0,
    )
search_smallest i (a ∷ b ∷ rest) best h (suc k) s e =
    search_smallest (suc i) (b ∷ rest) (smaller ((a + b) % u64_mod) i best)
      (fits-parts a b rest h).1 k s e

-- The index that the loop ends with is the one before, or that of the size it ends with.
search_at :
    (i : ℕ) (sizes : List ℕ) (best : ℕ × ℕ)
    → fits sizes ≡ true
    → (search i sizes best ≡ best)
      ⊎ ((k : ℕ) × ((search i sizes best).1 ≡ i + k)
          × (size_at sizes k ≡ some (search i sizes best).0))
unfolding search size_at
search_at i [] best h = inl refl
search_at i (a ∷ []) best h = inl refl
search_at i (a ∷ b ∷ rest) best h =
    let best' = smaller ((a + b) % u64_mod) i best in
    let small : (a + b) % u64_mod ≡ a + b = omega (arith, (fits-parts a b rest h).0) in
    elim (search_at (suc i) (b ∷ rest) best' (fits-parts a b rest h).1) [
      | inr (k, at, found) ↦ inr (suc k, omega (arith, at), found)
      | inl same ↦ elim (smaller_lem ((a + b) % u64_mod) i best).2 [
        | inl kept ↦ inl (same ∙ kept)
        | inr taken ↦ inr (
          0,
          ap (λ p. p.1) (same ∙ taken) ∙ omega arith,
          ap some (sym small ∙ sym (ap (λ p. p.0) (same ∙ taken))),
        )
      ]
    ]

-- Where there are two levels and the sizes of adjacent ones add up to less than 2^64: the levels that are compacted are
-- an index and the next one, both in the list, and no two adjacent levels are smaller together.
pub min_adjacent_lem :
    (a b : ℕ) (rest : List ℕ)
    → fits (a ∷ b ∷ rest) ≡ true
    → (i : ℕ) × (size : ℕ) × (min_adjacent (a ∷ b ∷ rest) ≡ some i)
      × (size_at (a ∷ b ∷ rest) i ≡ some size)
      × ((k s : ℕ) → size_at (a ∷ b ∷ rest) k ≡ some s → size ≤ s)
unfolding min_adjacent size_at
min_adjacent_lem a b rest h =
    let sizes : List ℕ = a ∷ b ∷ rest in
    let smallest = search_smallest 0 sizes (u64_max, 0) h in
    elim (search_at 0 sizes (u64_max, 0) h) [
      | inr (k, at, found) ↦
          (k, (search 0 sizes (u64_max, 0)).0, ap some at ∙ ap some (omega arith), found, smallest)
      | inl same ↦
          let least : u64_max ≤ a + b = subst (λ p. p.0 ≤ a + b) same (smallest 0 (a + b) refl) in
          let full : a + b ≡ u64_max = omega (arith, least, (fits-parts a b rest h).0) in
          (
            0,
            u64_max,
            ap (λ p. some p.1) same,
            ap some full,
            λ k s e. subst (λ p. p.0 ≤ s) same (smallest k s e),
          )
    ]
