-- ===== src/LeveledStore/Snapshot.antt =====
-- Steps of a leveled map, and what a snapshot sees across them.
use databend_meta.Common.{
  ℕ, suc, ◌≡◌, ◌≤◌, refl, ap, true, not, Bool-cases, inl, inr, Option, some, ◌∷◌, map,
  if◌then◌else◌,
}
use databend_meta.LeveledStore.Mvcc.{Space, Mvcc, MvccLaws}
use databend_meta.LeveledStore.Level.{size, level_get, new_level, new_immutable}
use databend_meta.LeveledStore.Levels.{levels_get, compact_min_adjacent}
use databend_meta.LeveledStore.Compact.{fits}
use databend_meta.LeveledStore.LeveledMap
use databend_meta.LeveledStore.LeveledMap.{
  Db, ImmutableData, LeveledMap, map_get, data_get, persisted_get, freeze_writable,
  replace_immutable_levels, replace_with_compacted, left_levels, commit, updated, compact, replaced,
  logged, index_of, stats_eq,
}
use databend_meta.LeveledStore.Compacted.{compact-Cases}
use databend_meta.LeveledStore.Reads.{levels_get-compact_min_adjacent}
use databend_meta.LeveledStore.Valid.{
  IsValid, empty_missing, insert-IsValid, compact_min_adjacent-IsValid,
}

module _ (tables : Space → Mvcc) (db : Db tables) (laws : (n : Space) → MvccLaws (tables n))
    (s : ℕ) where
  -- What a snapshot at `s` reads of a key: a deleted value is none.
  abbrev pub reads : (n : Space) → LeveledMap tables db → (tables n).Key → Option (tables n).Value
  reads n lm k = (tables n).value (map_get tables db n lm k s)

  abbrev pub MapIsValid : LeveledMap tables db → Type 0
  MapIsValid lm = IsValid tables laws s lm.writable lm.immutable.levels lm.uniq

  first_of :
      (m : Mvcc) (w ls rest : m.Marked)
      → (if not (m.is_not_found (if m.is_not_found w then ls else w))
          then if m.is_not_found w then ls else w
          else rest)
        ≡ (if not (m.is_not_found w) then w else if not (m.is_not_found ls) then ls else rest)
  first_of m w ls rest = elim (Bool-cases (m.is_not_found w)) [
    | inl missing ↦ rw missing
    | inr found ↦ rw (found, found)
  ]

  -- A freeze fails no assertion, keeps the map valid, and the snapshot reads what it read.
  pub freeze_writable_lem :
      (lm : LeveledMap tables db)
      → MapIsValid lm
      → (lm' : LeveledMap tables db) × (freeze_writable tables db lm ≡ some lm')
        × MapIsValid lm'
        × ((n : Space) (k : (tables n).Key)
            → map_get tables db n lm' k s ≡ map_get tables db n lm k s)
  unfolding freeze_writable LeveledMap.new map_get data_get levels_get
  freeze_writable_lem lm v =
      let i = new_immutable tables lm.uniq lm.writable in
      let (inserted, valid) =
        insert-IsValid tables laws s lm.writable lm.immutable.levels lm.uniq v in
      (
        record {
          writable = new_level tables lm.writable;
          immutable = LeveledMap.new tables db (i ∷ lm.immutable.levels) lm.immutable.persisted;
          uniq = suc lm.uniq;
        },
        rw inserted,
        valid,
        λ n k. rw (empty_missing tables laws s lm.writable n k) (
            first_of (tables n) (level_get tables n lm.writable k s)
              (levels_get tables n lm.immutable.levels k s)
              (persisted_get tables db n lm.immutable.persisted k s)),
      )

  -- Where no two sizes overflow: a compaction keeps the map valid for a snapshot that is not older than the oldest one
  -- kept, and the snapshot reads what it read.
  pub reads-compact :
      (lm : LeveledMap tables db) (min_seq : ℕ)
      → MapIsValid lm
      → fits (map (size tables) lm.immutable.levels) ≡ true
      → min_seq ≤ s
      → (lm' : LeveledMap tables db) × (compact tables db min_seq lm ≡ some lm')
        × MapIsValid lm'
        × ((n : Space) (k : (tables n).Key)
            → map_get tables db n lm' k s ≡ map_get tables db n lm k s)
  unfolding map_get data_get replace_immutable_levels LeveledMap.new
  reads-compact lm min_seq v small h =
      let old = lm.immutable.levels in
      let merged = compact_min_adjacent tables old min_seq in
      elim (compact-Cases tables db lm min_seq v.descending small) [
        | inl (skip, _, e) ↦ (lm, e, v, λ n k. refl)
        | inr (_, e) ↦ (
          replace_immutable_levels tables db merged lm,
          e,
          compact_min_adjacent-IsValid tables laws s lm.writable old lm.uniq min_seq v small h,
          λ n k.
              ap
                (λ got.
                  if not ((tables n).is_not_found (level_get tables n lm.writable k s))
                  then level_get tables n lm.writable k s
                  else if not ((tables n).is_not_found got)
                  then got
                  else persisted_get tables db n lm.immutable.persisted k s)
                (levels_get-compact_min_adjacent tables laws s old min_seq v.descending small
                  v.versions h n k),
        )
      ]
