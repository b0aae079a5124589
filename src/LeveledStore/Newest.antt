-- ===== src/LeveledStore/Newest.antt =====
-- What the server does to the levels in the background: `in_memory_compact_once` of
-- crates/server/service/src/store/meta_raft_state_machine/mod.rs freezes the writable level and compacts with `u64::MAX` as the
-- oldest snapshot that is kept; a build of a snapshot freezes, and then exchanges the levels for a file.
use databend_meta.Common.{◌≡◌, ◌∙◌, refl, ap, arith, true, some, ◌++◌, map}
use databend_meta.Common.Int.{u64_max}
use databend_meta.LeveledStore.Mvcc.{Space, Mvcc, MvccLaws}
use databend_meta.LeveledStore.Level.{size}
use databend_meta.LeveledStore.Levels.{ImmutableLevels}
use databend_meta.LeveledStore.Compact.{fits}
use databend_meta.LeveledStore.LeveledMap
use databend_meta.LeveledStore.LeveledMap.{
  Db, ImmutableData, LeveledMap, map_get, data_get, freeze_writable, replace_with_compacted,
  left_levels, compact,
}
use databend_meta.LeveledStore.Snapshot.{reads, MapIsValid, freeze_writable_lem, reads-compact}
use databend_meta.LeveledStore.Persisted.{Holds, replace_with_compacted_lem}
use databend_meta.LeveledStore.Repeatable.{Same, Same-result}

module _ (tables : Space → Mvcc) (db : Db tables) (laws : (n : Space) → MvccLaws (tables n)) where
  -- One step in the background: a freeze of the writable level; a compaction as the server calls it, where no sizes of two
  -- adjacent levels overflow together; or the exchange of the oldest levels and the file for a file that holds the newest
  -- value of every key in them.
  pub data Step : LeveledMap tables db → LeveledMap tables db → Type 0 where
    frozen : {lm lm' : LeveledMap tables db} → freeze_writable tables db lm ≡ some lm' → Step lm lm'
    compacted :
        {lm lm' : LeveledMap tables db}
        → fits (map (size tables) lm.immutable.levels) ≡ true
        → compact tables db u64_max lm ≡ some lm'
        → Step lm lm'
    persisted :
        {lm lm' : LeveledMap tables db} (later old : ImmutableLevels tables) (f : db.File)
        → lm.immutable.levels ≡ later ++ old
        → Holds tables db laws u64_max f (LeveledMap.new tables db old lm.immutable.persisted)
        → replace_with_compacted tables db
            (LeveledMap.new tables db old lm.immutable.persisted)
            f
            lm
          ≡ some lm'
        → Step lm lm'

  pub data Steps : LeveledMap tables db → LeveledMap tables db → Type 0 where
    idle : {lm : LeveledMap tables db} → Steps lm lm
    after : {a b c : LeveledMap tables db} → Step a b → Steps b c → Steps a c

  Step-Same :
      {lm lm' : LeveledMap tables db}
      → MapIsValid tables db laws u64_max lm
      → Step lm lm'
      → Same tables db laws u64_max lm lm'
  Step-Same {lm = lm} v (frozen e) =
      let (_, e', valid, same) = freeze_writable_lem tables db laws u64_max lm v in
      Same-result tables db laws u64_max lm (freeze_writable tables db lm) e' e
        (valid, λ n k. ap (tables n).value (same n k))
  Step-Same {lm = lm} v (compacted small e) =
      let (_, e', valid, same) =
        reads-compact tables db laws u64_max lm u64_max v small (omega arith) in
      Same-result tables db laws u64_max lm (compact tables db u64_max lm) e' e
        (valid, λ n k. ap (tables n).value (same n k))
  Step-Same {lm = lm} v (persisted later old f levels holds e) =
      let (_, e', _, valid, same) =
        replace_with_compacted_lem tables db laws u64_max lm later old f v levels holds in
      Same-result tables db laws u64_max lm
        (replace_with_compacted tables db (LeveledMap.new tables db old lm.immutable.persisted) f
          lm)
        e' e (valid, same)

  -- Where the levels are in order for a read of the newest versions: after any sequence of freezes, compactions that keep
  -- no snapshot below `u64::MAX`, as the server's do, while no sizes of two adjacent levels overflow together, and exchanges of
  -- the oldest levels for a file that holds the newest value of every key in them, the levels are in order, and the newest
  -- value of every key is what it was. Nothing is said of a snapshot below `u64::MAX`: its versions can be merged away.
  pub newest-Steps :
      {lm lm' : LeveledMap tables db}
      → MapIsValid tables db laws u64_max lm
      → Steps lm lm'
      → MapIsValid tables db laws u64_max lm'
        × ((n : Space) (k : (tables n).Key)
            → reads tables db laws u64_max n lm' k ≡ reads tables db laws u64_max n lm k)
  newest-Steps v idle = (v, λ n k. refl)
  newest-Steps v (after step rest) =
      let (valid, same) = Step-Same v step in
      let (valid', same') = newest-Steps valid rest in (valid', λ n k. same' n k ∙ same n k)
