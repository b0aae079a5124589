-- ===== src/LeveledStore/Reads.antt =====
-- Reads of merged levels.
use databend_meta.Common.{
  ℕ, ◌≡◌, ◌∙◌, ◌≤◌, refl, sym, subst, ap, arith, true, false, Bool-cases, inl, inr, [], ◌∷◌, ◌++◌,
  All, map, if◌then◌else◌,
}
use databend_meta.LeveledStore.Mvcc.{Space, user, expire, Mvcc, MvccLaws, later}
use databend_meta.LeveledStore.Level.{Level, Immutable, size, level_get, compact, compact_immutable}
use databend_meta.LeveledStore.Levels.{ImmutableLevels, levels_get, compact_min_adjacent}
use databend_meta.LeveledStore.Compact.{fits}
use databend_meta.LeveledStore.Order.{IsDescending}
use databend_meta.LeveledStore.Merged.{compact_min_adjacent_lem}

module _ (tables : Space → Mvcc) (laws : (n : Space) → MvccLaws (tables n)) (s : ℕ) where
  -- What a snapshot at `s` sees of a key in a newer level is not older than what it sees in an older level.
  abbrev pub IsNewer : Level tables → Level tables → Type 0
  IsNewer newer older =
      (n : Space) (k : (tables n).Key)
      → (tables n).is_not_found (level_get tables n newer k s) ≡ false
      → (tables n).is_not_found (level_get tables n older k s) ≡ false
      → (tables n).internal_seq (level_get tables n older k s)
        ≤ (tables n).internal_seq (level_get tables n newer k s)

  abbrev pub IsAbove : Level tables → ImmutableLevels tables → Type 0
  IsAbove l ls = All (λ (i : Immutable tables). IsNewer l i.level) ls

  abbrev pub InOrder : ImmutableLevels tables → Type 0
  InOrder [] = Unit {0}
  InOrder (j ∷ js) = IsAbove j.level js × InOrder js

  -- Of two versions in order the newer one is kept, where it is found.
  kept :
      (m : Mvcc) (a b : m.Marked)
      → (m.is_not_found a ≡ false → m.is_not_found b ≡ false → m.internal_seq b ≤ m.internal_seq a)
      → later m a b ≡ (if m.is_not_found a then b else a)
  kept m a b h = elim (Bool-cases (m.is_not_found a)) [
    | inl missing ↦ rw missing
    | inr found ↦ elim (Bool-cases (m.is_not_found b)) [
      | inl missing ↦ rw (found, missing)
      | inr both ↦ let order = h found both in rw (found, both) (ground arith)
    ]
  ]

  first_found :
      (m : Mvcc) (a b c rest : m.Marked)
      → c ≡ (if m.is_not_found a then b else a)
      → (if m.is_not_found c then rest else c)
        ≡ (if m.is_not_found a then if m.is_not_found b then rest else b else a)
  first_found m a b c rest e =
      ap (λ x. if m.is_not_found x then rest else x) e ∙ elim (Bool-cases (m.is_not_found a)) [
        | inl missing ↦ rw missing
        | inr found ↦ rw (found, found)
      ]

  merged_get :
      (a b : Level tables) (min_seq : ℕ) (n : Space) (k : (tables n).Key)
      → min_seq ≤ s
      → level_get tables n (compact tables a b min_seq) k s
        ≡ later (tables n) (level_get tables n a k s) (level_get tables n b k s)
  unfolding compact
  merged_get a b min_seq user k h = (laws user).get-compact a.kv b.kv min_seq s k h
  merged_get a b min_seq expire k h = (laws expire).get-compact a.expired b.expired min_seq s k h

  pub level_get-compact :
      (a b : Level tables) (min_seq : ℕ) (n : Space) (k : (tables n).Key)
      → min_seq ≤ s
      → IsNewer a b
      → level_get tables n (compact tables a b min_seq) k s ≡ (
          if (tables n).is_not_found (level_get tables n a k s)
          then level_get tables n b k s
          else level_get tables n a k s)
  level_get-compact a b min_seq n k h order =
      merged_get a b min_seq n k h
      ∙ kept (tables n) (level_get tables n a k s) (level_get tables n b k s) (order n k)

  -- Two levels in order and their merge are read alike.
  levels_get-merged :
      (pre post : ImmutableLevels tables) (a b c : Immutable tables) (min_seq : ℕ)
      → c.level ≡ compact tables a.level b.level min_seq
      → min_seq ≤ s
      → InOrder (pre ++ a ∷ b ∷ post)
      → (n : Space) (k : (tables n).Key)
      → levels_get tables n (pre ++ c ∷ post) k s ≡ levels_get tables n (pre ++ a ∷ b ∷ post) k s
  unfolding levels_get
  levels_get-merged [] post a b c min_seq e h ((newer, _), _) n k =
      let read : level_get tables n c.level k s ≡ (
          if (tables n).is_not_found (level_get tables n a.level k s)
          then level_get tables n b.level k s
          else level_get tables n a.level k s) =
        ap (λ l. level_get tables n l k s) e
        ∙ level_get-compact a.level b.level min_seq n k h newer in
      first_found (tables n) (level_get tables n a.level k s) (level_get tables n b.level k s)
        (level_get tables n c.level k s) (levels_get tables n post k s) read
  levels_get-merged (p ∷ pre) post a b c min_seq e h (_, order) n k =
      ap
        (λ older.
          if (tables n).is_not_found (level_get tables n p.level k s)
          then older
          else level_get tables n p.level k s)
        (levels_get-merged pre post a b c min_seq e h order n k)

  -- Where the levels stand in the order of their indexes and of their versions, no two sizes overflow, and the oldest
  -- snapshot that is kept is not newer than the snapshot: a merge of the smallest pair changes no read of the snapshot.
  pub levels_get-compact_min_adjacent :
      (ls : ImmutableLevels tables) (min_seq : ℕ)
      → IsDescending tables ls
      → fits (map (size tables) ls) ≡ true
      → InOrder ls
      → min_seq ≤ s
      → (n : Space) (k : (tables n).Key)
      → levels_get tables n (compact_min_adjacent tables ls min_seq) k s
        ≡ levels_get tables n ls k s
  unfolding compact_min_adjacent
  levels_get-compact_min_adjacent [] min_seq d f v h n k = refl
  levels_get-compact_min_adjacent (a ∷ []) min_seq d f v h n k = refl
  levels_get-compact_min_adjacent (a ∷ b ∷ rest) min_seq d f v h n k =
      let (pre, post, newer, older, e, same, merged) =
        compact_min_adjacent_lem tables a b rest min_seq d f in
      let c = compact_immutable tables newer older min_seq in
      ap (λ ls. levels_get tables n ls k s) merged
      ∙ levels_get-merged pre post newer older c min_seq (unfold compact_immutable in refl) h
          (subst InOrder e v) n k
      ∙ ap (λ ls. levels_get tables n ls k s) (sym e)
