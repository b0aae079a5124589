-- ===== src/LeveledStore/Compacted.antt =====
-- `ImmutableCompactor::compact`: when levels are merged, which ones, and that no index is out of bounds.
use databend_meta.Common.{
  ℕ, suc, ◌≡◌, ◌∙◌, refl, sym, subst, ap, arith, Bool, true, false, ◌&&◌, ◌⊎◌, inl, inr, Option,
  none, some, List, [], ◌∷◌, ◌++◌, map, ◌==◌,
}
use databend_meta.LeveledStore.Mvcc.{Space, Mvcc}
use databend_meta.LeveledStore.Level.{
  LevelStat, with_index, stat, index_eq, Immutable, size, compact_immutable,
}
use databend_meta.LeveledStore.Levels.{
  ImmutableLevels, compact_min_adjacent, levels_stat, need_compact, Skip,
}
use databend_meta.LeveledStore.Compact.{fits}
use databend_meta.LeveledStore.LeveledMap.{
  Db, LeveledMap, replace_immutable_levels, compact, replaced, logged, index_of, stats_eq, stat_eq,
}
use databend_meta.LeveledStore.Order.{IsDescending, IsDescending-replaced, index_ne, index_eq_refl}
use databend_meta.LeveledStore.Merged.{IsSmallest, compact_min_adjacent-IsSmallest}

suc_ne : (i : ℕ) → (suc i == 0) ≡ false
suc_ne i = ground arith

and_false : (b : Bool) → (b && false) ≡ false
and_false true = refl
and_false false = refl

module _ (tables : Space → Mvcc) (db : Db tables) where
  same_index : (a c : Immutable tables) → c.index ≡ a.index → index_eq a.index c.index ≡ true
  same_index a c e = subst (λ x. index_eq a.index x ≡ true) (sym e) (index_eq_refl a.index)

  logged_lem :
      (pre post : ImmutableLevels tables) (a b c : Immutable tables) (i : ℕ)
      → c.index ≡ a.index
      → IsDescending tables (pre ++ a ∷ b ∷ post)
      → logged tables db i
          (map (index_of tables db) (pre ++ a ∷ b ∷ post))
          (map (index_of tables db) (pre ++ c ∷ post))
        ≡ some tt
  unfolding logged
  logged_lem [] [] a b c i e h = rw (same_index a c e)
  logged_lem [] (q ∷ post) a b c i e (_, ((bq, _), _)) =
      rw (same_index a c e, index_ne q.index b.index bq, suc_ne i)
  logged_lem (p ∷ pre) post a b c i e (_, h) =
      rw (index_eq_refl p.index) (logged_lem pre post a b c (suc i) e h)

  behind_ne :
      (x y : LevelStat) (xs ys : List LevelStat)
      → stats_eq tables db xs ys ≡ false
      → stats_eq tables db (x ∷ xs) (y ∷ ys) ≡ false
  behind_ne x y xs ys h = ap (λ t. stat_eq tables db x y && t) h ∙ and_false (stat_eq tables db x y)

  -- A list of statistics is not its rest.
  cons_ne : (x : LevelStat) (xs : List LevelStat) → stats_eq tables db (x ∷ xs) xs ≡ false
  cons_ne x [] = refl
  cons_ne x (y ∷ ys) = behind_ne x y (y ∷ ys) ys (cons_ne y ys)

  abbrev stat_of : Immutable tables → LevelStat
  stat_of i = with_index (stat tables i.level) i.index

  stats_ne :
      (pre post : ImmutableLevels tables) (n o c : Immutable tables)
      → stats_eq tables db
          (levels_stat tables (pre ++ n ∷ o ∷ post))
          (levels_stat tables (pre ++ c ∷ post))
        ≡ false
  unfolding levels_stat
  stats_ne [] post n o c =
      behind_ne (stat_of n) (stat_of c) (map stat_of (o ∷ post)) (map stat_of post)
        (cons_ne (stat_of o) (map stat_of post))
  stats_ne (p ∷ pre) post n o c =
      behind_ne (stat_of p) (stat_of p) (map stat_of (pre ++ n ∷ o ∷ post))
        (map stat_of (pre ++ c ∷ post)) (stats_ne pre post n o c)

  replaced_lem :
      (pre post : ImmutableLevels tables) (n o c : Immutable tables) (lm : LeveledMap tables db)
      → c.index ≡ n.index
      → IsDescending tables (pre ++ n ∷ o ∷ post)
      → replaced tables db none (pre ++ n ∷ o ∷ post) (pre ++ c ∷ post) lm
        ≡ some (replace_immutable_levels tables db (pre ++ c ∷ post) lm)
  replaced_lem pre post n o c lm same h =
      rw (stats_ne pre post n o c, logged_lem pre post n o c 0 same h)

  -- Levels that are compacted: the pair, and what is put in the map.
  abbrev Pair : ImmutableLevels tables → ℕ → LeveledMap tables db → Type 0
  Pair ls min_seq lm =
      (pre : ImmutableLevels tables) × (post : ImmutableLevels tables) × (n : Immutable tables)
      × (o : Immutable tables) × (ls ≡ pre ++ n ∷ o ∷ post)
      × IsSmallest tables ls n o
      × (compact_min_adjacent tables ls min_seq
          ≡ pre ++ compact_immutable tables n o min_seq ∷ post)
      × IsDescending tables (pre ++ compact_immutable tables n o min_seq ∷ post)
      × (replaced tables db none ls (compact_min_adjacent tables ls min_seq) lm
          ≡ some (replace_immutable_levels tables db (compact_min_adjacent tables ls min_seq) lm))

  pair_lem :
      (ls : ImmutableLevels tables) (min_seq : ℕ) (lm : LeveledMap tables db)
      → need_compact tables ls ≡ none
      → IsDescending tables ls
      → fits (map (size tables) ls) ≡ true
      → Pair ls min_seq lm
  unfolding need_compact
  pair_lem [] min_seq lm h d small = cc
  pair_lem (i ∷ []) min_seq lm h d small = cc
  pair_lem (i ∷ j ∷ rest) min_seq lm h d small =
      let ls : ImmutableLevels tables = i ∷ j ∷ rest in
      let (pre, post, n, o, e, same, merged, smallest) =
        compact_min_adjacent-IsSmallest tables i j rest min_seq d small in
      let c = compact_immutable tables n o min_seq in
      let d' = subst (IsDescending tables) e d in
      let new_levels = compact_min_adjacent tables ls min_seq in
      (
        pre,
        post,
        n,
        o,
        e,
        smallest,
        merged,
        IsDescending-replaced tables pre post n o c same d',
        ap (λ xs. replaced tables db none xs new_levels lm) e
            ∙ ap (λ ys. replaced tables db none (pre ++ n ∷ o ∷ post) ys lm) merged
            ∙ replaced_lem pre post n o c lm same d'
            ∙ ap (λ ys. some (replace_immutable_levels tables db ys lm)) (sym merged),
      )

  -- Nothing, or the levels that `compact_min_adjacent` makes.
  abbrev Cases : ℕ → LeveledMap tables db → Option (LeveledMap tables db) → Option Skip → Type 0
  Cases min_seq lm r k =
      ((skip : Skip) × (k ≡ some skip) × (r ≡ some lm))
      ⊎ ((k ≡ none)
          × (r
              ≡ some (
                  replace_immutable_levels tables db
                    (compact_min_adjacent tables lm.immutable.levels min_seq) lm)))

  replaced-Cases :
      (lm : LeveledMap tables db) (min_seq : ℕ) (k : Option Skip)
      → need_compact tables lm.immutable.levels ≡ k
      → IsDescending tables lm.immutable.levels
      → fits (map (size tables) lm.immutable.levels) ≡ true
      → Cases min_seq lm
          (replaced tables db k lm.immutable.levels
            (compact_min_adjacent tables lm.immutable.levels min_seq)
            lm)
          k
  replaced-Cases lm min_seq (some skip) h d small = inl (skip, refl, refl)
  replaced-Cases lm min_seq none h d small =
      let (pre, post, n, o, e, smallest, merged, d', r) =
        pair_lem lm.immutable.levels min_seq lm h d small in
      inr (refl, r)

  pub compact-Cases :
      (lm : LeveledMap tables db) (min_seq : ℕ)
      → IsDescending tables lm.immutable.levels
      → fits (map (size tables) lm.immutable.levels) ≡ true
      → Cases min_seq lm (compact tables db min_seq lm) (need_compact tables lm.immutable.levels)
  unfolding compact
  compact-Cases lm min_seq d small =
      replaced-Cases lm min_seq (need_compact tables lm.immutable.levels) refl d small

  -- What a compaction does: nothing, where the levels are few or of a similar size; or the two adjacent levels that are
  -- together the smallest become one, at their place, merged for the oldest snapshot that is kept.
  pub Compaction : ℕ → LeveledMap tables db → LeveledMap tables db → Type 0
  Compaction min_seq lm lm' =
      ((skip : Skip) × (need_compact tables lm.immutable.levels ≡ some skip) × (lm' ≡ lm))
      ⊎ ((need_compact tables lm.immutable.levels ≡ none)
          × (pre : ImmutableLevels tables) × (post : ImmutableLevels tables) × (n : Immutable
              tables)
          × (o : Immutable tables) × (lm.immutable.levels ≡ pre ++ n ∷ o ∷ post)
          × IsSmallest tables lm.immutable.levels n o
          × (lm'
              ≡ replace_immutable_levels tables db
                  (pre ++ compact_immutable tables n o min_seq ∷ post) lm)
          × IsDescending tables (pre ++ compact_immutable tables n o min_seq ∷ post))

  -- Where the immutable levels stand in the order of their indexes, and no sizes of two adjacent ones overflow together:
  -- a compaction, whatever snapshots it keeps, reads no index out of bounds. It changes nothing where the levels are few
  -- or of a similar size. Else exactly two adjacent levels are replaced by the merge of the two, at their place, of
  -- which the sizes together are not greater than those of any two adjacent levels; the levels stay in order, and the rest
  -- of the map is what it was.
  pub compact_lem :
      (lm : LeveledMap tables db) (min_seq : ℕ)
      → IsDescending tables lm.immutable.levels
      → fits (map (size tables) lm.immutable.levels) ≡ true
      → (lm' : LeveledMap tables db) × (compact tables db min_seq lm ≡ some lm')
        × Compaction min_seq lm lm'
  unfolding Compaction
  compact_lem lm min_seq d small = elim (compact-Cases lm min_seq d small) [
    | inl (skip, few, e) ↦ (lm, e, inl (skip, few, refl))
    | inr (many, e) ↦
        let (pre, post, n, o, levels, smallest, merged, d', _) =
          pair_lem lm.immutable.levels min_seq lm many d small in
        (
          replace_immutable_levels tables db
              (compact_min_adjacent tables lm.immutable.levels min_seq) lm,
          e,
          inr (
            many,
            pre,
            post,
            n,
            o,
            levels,
            smallest,
            ap (λ ls. replace_immutable_levels tables db ls lm) merged,
            d',
          ),
        )
  ]
