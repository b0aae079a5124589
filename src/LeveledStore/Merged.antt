-- ===== src/LeveledStore/Merged.antt =====
-- `compact_min_adjacent` puts one merged level in the place of two adjacent ones.
use databend_meta.Common.{
  ℕ, zero, suc, ◌+◌, ◌≤◌, ◌≡◌, ◌∙◌, refl, subst, ap, true, some, [], ◌∷◌, ◌++◌, map, get_elem?,
  if◌then◌else◌,
}
use databend_meta.LeveledStore.Mvcc.{Space, Mvcc}
use databend_meta.LeveledStore.Level.{index_ltb, Immutable, size, compact_immutable}
use databend_meta.LeveledStore.Levels.{ImmutableLevels, merge_at, merge_pair, compact_min_adjacent}
use databend_meta.LeveledStore.Compact.{size_at, fits}
use databend_meta.LeveledStore.Smallest.{min_adjacent_lem}
use databend_meta.LeveledStore.Order.{IsDescending, new_form_iter-put-remove}

module _ (tables : Space → Mvcc) where
  -- An index where two adjacent sizes stand splits the levels there.
  split :
      (ls : ImmutableLevels tables) (i s : ℕ)
      → size_at (map (size tables) ls) i ≡ some s
      → (pre : ImmutableLevels tables) × (post : ImmutableLevels tables) × (n : Immutable tables)
        × (o : Immutable tables) × (ls ≡ pre ++ n ∷ o ∷ post)
        × (get_elem? ls i ≡ some n)
        × (get_elem? ls (suc i) ≡ some o)
        × (s ≡ size tables n + size tables o)
  unfolding size_at
  split [] i s h = cc
  split (j ∷ []) i s h = cc
  split (n ∷ o ∷ post) zero s h = ([], post, n, o, refl, refl, refl, cc)
  split (p ∷ j ∷ js) (suc i) s h =
      let (pre, post, n, o, e, at, next, both) = split (j ∷ js) i s h in
      (p ∷ pre, post, n, o, ap (λ ls. p ∷ ls) e, at, next, both)

  greater_index :
      (pre post : ImmutableLevels tables) (n o : Immutable tables)
      → IsDescending tables (pre ++ n ∷ o ∷ post)
      → index_ltb o.index n.index ≡ true
  greater_index [] post n o ((below, _), h) = below
  greater_index (p ∷ pre) post n o (below, h) = greater_index pre post n o h

  -- No two adjacent levels are smaller together than these two.
  abbrev pub IsSmallest : ImmutableLevels tables → Immutable tables → Immutable tables → Type 0
  IsSmallest ls n o =
      (k z : ℕ) → size_at (map (size tables) ls) k ≡ some z → size tables n + size tables o ≤ z

  -- Where the levels stand in the order of their indexes, there are two, and no two sizes overflow: exactly one pair of
  -- adjacent levels, of which none is smaller, is replaced by the merge of the two, at the index of the newer.
  pub compact_min_adjacent-IsSmallest :
      (a b : Immutable tables) (rest : ImmutableLevels tables) (min_seq : ℕ)
      → IsDescending tables (a ∷ b ∷ rest)
      → fits (map (size tables) (a ∷ b ∷ rest)) ≡ true
      → (pre : ImmutableLevels tables) × (post : ImmutableLevels tables) × (n : Immutable tables)
        × (o : Immutable tables) × (a ∷ b ∷ rest ≡ pre ++ n ∷ o ∷ post)
        × ((compact_immutable tables n o min_seq).index ≡ n.index)
        × (compact_min_adjacent tables (a ∷ b ∷ rest) min_seq
            ≡ pre ++ compact_immutable tables n o min_seq ∷ post)
        × IsSmallest (a ∷ b ∷ rest) n o
  unfolding compact_min_adjacent
  compact_min_adjacent-IsSmallest a b rest min_seq h small =
      let ls : ImmutableLevels tables = a ∷ b ∷ rest in
      let (i, s, chosen, at, smallest) =
        min_adjacent_lem (size tables a) (size tables b) (map (size tables) rest) small in
      let (pre, post, n, o, e, newer, older, both) = split ls i s at in
      let h' = subst (IsDescending tables) e h in
      let c = compact_immutable tables n o min_seq in
      let same : c.index ≡ n.index =
        unfold compact_immutable in
        ap (λ b. if b then n.index else o.index) (greater_index pre post n o h') in
      (
        pre,
        post,
        n,
        o,
        e,
        same,
        ap (λ j. merge_at tables j min_seq ls) chosen
            ∙ ap (λ x. merge_pair tables x (get_elem? ls (suc i)) min_seq ls) newer
            ∙ ap (λ y. merge_pair tables (some n) y min_seq ls) older
            ∙ ap (λ xs. merge_pair tables (some n) (some o) min_seq xs) e
            ∙ new_form_iter-put-remove tables pre post n o c same h',
        λ k z found. subst (λ x. x ≤ z) both (smallest k z found),
      )

  pub compact_min_adjacent_lem :
      (a b : Immutable tables) (rest : ImmutableLevels tables) (min_seq : ℕ)
      → IsDescending tables (a ∷ b ∷ rest)
      → fits (map (size tables) (a ∷ b ∷ rest)) ≡ true
      → (pre : ImmutableLevels tables) × (post : ImmutableLevels tables) × (n : Immutable tables)
        × (o : Immutable tables) × (a ∷ b ∷ rest ≡ pre ++ n ∷ o ∷ post)
        × ((compact_immutable tables n o min_seq).index ≡ n.index)
        × (compact_min_adjacent tables (a ∷ b ∷ rest) min_seq
            ≡ pre ++ compact_immutable tables n o min_seq ∷ post)
  compact_min_adjacent_lem a b rest min_seq h small =
      let (pre, post, n, o, e, same, merged, smallest) =
        compact_min_adjacent-IsSmallest a b rest min_seq h small in
      (pre, post, n, o, e, same, merged)
