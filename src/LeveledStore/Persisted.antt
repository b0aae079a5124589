-- ===== src/LeveledStore/Persisted.antt =====
-- The oldest levels are replaced by the file that they were compacted to.
use databend_meta.Common.{
  ℕ, ◌≡◌, ◌∙◌, refl, sym, subst, ap, arith, true, false, not, Bool-cases, inl, inr, some, [], ◌∷◌,
  ◌++◌, All, if◌then◌else◌,
}
use mathlib.Core.List.{append-nil}
use databend_meta.Types.SysData.{curr_seq}
use databend_meta.LeveledStore.Mvcc.{Space, Mvcc, MvccLaws}
use databend_meta.LeveledStore.Level.{LevelIndex, index_ltb, Immutable, level_get}
use databend_meta.LeveledStore.Levels.{
  ImmutableLevels, levels_get, newest_level_index, above, contains, remove_levels_upto,
}
use databend_meta.LeveledStore.LeveledMap
use databend_meta.LeveledStore.LeveledMap.{
  Db, ImmutableData, LeveledMap, map_get, data_get, persisted_get, freeze_writable,
  replace_with_compacted, left_levels, commit, updated, compact,
}
use databend_meta.LeveledStore.Order.{
  IsBelow, IsDescending, All-behind, index_eq_refl, index_not_below,
}
use databend_meta.LeveledStore.Reads.{IsNewer, IsAbove, InOrder}
use databend_meta.LeveledStore.Valid.{IsOld}
use databend_meta.LeveledStore.Snapshot.{reads, MapIsValid}

module _ (tables : Space → Mvcc) (db : Db tables) where
  All-front :
      (P : Immutable tables → Type 0) (xs ys : ImmutableLevels tables) → All P (xs ++ ys) → All P xs
  All-front P [] ys h = tt
  All-front P (x ∷ xs) ys (first, rest) = (first, All-front P xs ys rest)

  IsDescending-front :
      (xs ys : ImmutableLevels tables) → IsDescending tables (xs ++ ys) → IsDescending tables xs
  IsDescending-front [] ys h = tt
  IsDescending-front (x ∷ xs) ys (below, rest) =
      (All-front (IsBelow tables x.index) xs ys below, IsDescending-front xs ys rest)

  contains-behind :
      (xs ys : ImmutableLevels tables) (o : Immutable tables)
      → contains tables o.index (xs ++ o ∷ ys) ≡ true
  unfolding contains
  contains-behind [] ys o = rw (index_eq_refl o.index)
  contains-behind (x ∷ xs) ys o = ground (arith, contains-behind xs ys o)

  none_above :
      (x : LevelIndex) (ls : ImmutableLevels tables)
      → All (IsBelow tables x) ls
      → above tables x ls ≡ []
  unfolding above
  none_above x [] h = refl
  none_above x (j ∷ js) (first, rest) = rw (index_not_below j.index x first) (none_above x js rest)

  index_irrefl : (x : LevelIndex) → index_ltb x x ≡ false
  index_irrefl x = ground arith

  above_front :
      (xs ys : ImmutableLevels tables) (o : Immutable tables)
      → IsDescending tables (xs ++ o ∷ ys)
      → above tables o.index (xs ++ o ∷ ys) ≡ xs
  unfolding above
  above_front [] ys o (below, rest) = rw (index_irrefl o.index) (none_above o.index ys below)
  above_front (x ∷ xs) ys o (below, rest) =
      rw ((All-behind tables (IsBelow tables x.index) xs (o ∷ ys) below).0)
        (ap (λ ls. x ∷ ls) (above_front xs ys o rest))

  -- The levels that came after those that were compacted are left.
  left_front :
      (xs ys : ImmutableLevels tables)
      → IsDescending tables (xs ++ ys)
      → left_levels tables db (newest_level_index tables ys) (xs ++ ys) ≡ some xs
  unfolding newest_level_index remove_levels_upto
  left_front xs [] h = ap some (append-nil xs)
  left_front xs (o ∷ ys) h = rw (contains-behind xs ys o) (ap some (above_front xs ys o h))

  module _ (laws : (n : Space) → MvccLaws (tables n)) (s : ℕ) where
    InOrder-front :
        (xs ys : ImmutableLevels tables)
        → InOrder tables laws s (xs ++ ys)
        → InOrder tables laws s xs
    InOrder-front [] ys h = tt
    InOrder-front (x ∷ xs) ys (first, rest) = (
      All-front (λ (i : Immutable tables). IsNewer tables laws s x.level i.level) xs ys first,
      InOrder-front xs ys rest,
    )

    levels_get-append :
        (xs ys : ImmutableLevels tables) (n : Space) (k : (tables n).Key)
        → levels_get tables n (xs ++ ys) k s ≡ (
            if (tables n).is_not_found (levels_get tables n xs k s)
            then levels_get tables n ys k s
            else levels_get tables n xs k s)
    unfolding levels_get
    levels_get-append [] ys n k = rw ((laws n).not_found_lem)
    levels_get-append (x ∷ xs) ys n k =
        elim (Bool-cases ((tables n).is_not_found (level_get tables n x.level k s))) [
          | inl missing ↦ rw missing (levels_get-append xs ys n k)
          | inr found ↦ rw (found, found)
        ]

    -- the first one that is found
    abbrev first : (m : Mvcc) → m.Marked → m.Marked → m.Marked
    first m a b = if not (m.is_not_found a) then a else b

    persisted_value :
        (m : Mvcc) (w later old p f : m.Marked)
        → m.value f ≡ m.value (first m old p)
        → m.value (first m w (first m later f))
          ≡ m.value (first m w (first m (if m.is_not_found later then old else later) p))
    persisted_value m w later old p f e = elim (Bool-cases (m.is_not_found w)) [
      | inr found ↦ rw found
      | inl missing ↦ elim (Bool-cases (m.is_not_found later)) [
        | inl none_later ↦ rw (missing, none_later) e
        | inr some_later ↦ rw (missing, some_later, some_later)
      ]
    ]

    -- The file holds, for the snapshot, the values of the data that was compacted.
    abbrev pub Holds : db.File → ImmutableData tables db → Type 0
    Holds f d =
        (n : Space) (k : (tables n).Key)
        → (tables n).value (db.get n f k s) ≡ (tables n).value (data_get tables db n d k s)

    -- Where the compacted data were the oldest levels and the file of the map, and the new file holds their values: the
    -- levels that came later are kept, the map stays valid, and the snapshot reads the values that it read.
    pub replace_with_compacted_lem :
        (lm : LeveledMap tables db) (later old : ImmutableLevels tables) (f : db.File)
        → MapIsValid tables db laws s lm
        → lm.immutable.levels ≡ later ++ old
        → Holds f (LeveledMap.new tables db old lm.immutable.persisted)
        → (lm' : LeveledMap tables db) × (replace_with_compacted tables db
              (LeveledMap.new tables db old lm.immutable.persisted)
              f
              lm
            ≡ some lm')
          × (lm'.immutable.levels ≡ later)
          × MapIsValid tables db laws s lm'
          × ((n : Space) (k : (tables n).Key)
              → reads tables db laws s n lm' k ≡ reads tables db laws s n lm k)
    unfolding replace_with_compacted LeveledMap.new map_get data_get
    replace_with_compacted_lem lm later old f v e holds =
        let descending = subst (IsDescending tables) e v.descending in
        (
          record lm { immutable = LeveledMap.new tables db later (some f) },
          rw e (rw (left_front later old descending)),
          refl,
          record {
            descending = IsDescending-front later old descending;
            old =
                All-front
                  (λ (i : Immutable tables). IsOld (curr_seq lm.writable.sys_data) lm.uniq i.index)
                  later old
                  (subst
                    (λ ls.
                      All
                        (λ (i : Immutable tables).
                          IsOld (curr_seq lm.writable.sys_data) lm.uniq i.index)
                        ls)
                    e v.old);
            versions = InOrder-front later old (subst (InOrder tables laws s) e v.versions);
            newest =
                All-front (λ (i : Immutable tables). IsNewer tables laws s lm.writable i.level)
                  later old (subst (IsAbove tables laws s lm.writable) e v.newest);
          },
          λ n k.
              let m = tables n in
              let w = level_get tables n lm.writable k s in
              let p = persisted_get tables db n lm.immutable.persisted k s in
              persisted_value m w (levels_get tables n later k s) (levels_get tables n old k s) p
                (db.get n f k s) (holds n k)
              ∙ ap (λ got. m.value (first m w (first m got p)))
                  (sym (ap (λ ls. levels_get tables n ls k s) e ∙ levels_get-append later old n k)),
        )
