-- ===== src/LeveledStore/LeveledMap.antt =====
-- immutable_data/mod.rs, leveled_map/mod.rs, leveled_map/impl_commit.rs, leveled_map/impl_scoped_seq_bounded_get.rs and
-- `ImmutableCompactor` of crates/server/raft-store/src/immutable_compactor/mod.rs. The file with the persisted levels
-- (`DB`) is read through a third-party crate.
use databend_meta.Common.{
  ℕ, suc, Bool, true, false, not, Option, none, some, List, [], ◌∷◌, map, if◌then◌else◌, ◌==◌, ◌&&◌,
  option_map, option_eq,
}
use databend_meta.Types.SysData.{update_seq}
use databend_meta.LeveledStore.Mvcc.{Space, user, expire, Mvcc}
use databend_meta.LeveledStore.Level.{
  LevelIndex, index_eq, LevelStat, Immutable, Level, new_level, new_immutable, level_get,
}
use databend_meta.LeveledStore.Levels.{
  ImmutableLevels, insert, remove_levels_upto, levels_get, levels_stat, newest_level_index,
  last_seq, Skip, need_compact, compact_min_adjacent,
}

-- What is called of a `DB`: the last sequence number and reads at a snapshot.
pub record Db (tables : Space → Mvcc) : Type 1 where
  pub File : Type 0
  pub last_seq : File → ℕ
  pub get : (n : Space) → File → (tables n).Key → ℕ → (tables n).Marked

module _ (tables : Space → Mvcc) (db : Db tables) where
  pub record ImmutableData : Type 0 where
    pub last_seq : ℕ
    pub last_level_index : Option LevelIndex
    pub levels : ImmutableLevels tables
    pub persisted : Option db.File

  abbrev pub base_seq : Option ℕ → Option db.File → ℕ
  base_seq (some seq) persisted = seq
  base_seq none (some f) = db.last_seq f
  base_seq none none = 0

  -- `ImmutableData::new`
  unfoldable pub new : ImmutableLevels tables → Option db.File → ImmutableData
  unfolding last_seq newest_level_index
  new levels persisted = record {
    last_seq = base_seq (last_seq tables levels) persisted;
    last_level_index = newest_level_index tables levels;
    levels = levels;
    persisted = persisted;
  }

  abbrev pub persisted_get : (n : Space) → Option db.File → (tables n).Key → ℕ → (tables n).Marked
  persisted_get n none k s = (tables n).not_found
  persisted_get n (some f) k s = db.get n f k s

  -- `ScopedSeqBoundedGet` of the immutable data
  unfoldable pub data_get : (n : Space) → ImmutableData → (tables n).Key → ℕ → (tables n).Marked
  unfolding levels_get
  data_get n d k s =
      let got = levels_get tables n d.levels k s in
      if not ((tables n).is_not_found got) then got else persisted_get n d.persisted k s

  -- `LeveledMapData` behind the lock, with the process counter of `Immutable::new`
  pub record LeveledMap : Type 0 where
    pub writable : Level tables
    pub immutable : ImmutableData
    pub uniq : ℕ

  -- `ScopedSeqBoundedGet` of the map
  unfoldable pub map_get : (n : Space) → LeveledMap → (tables n).Key → ℕ → (tables n).Marked
  unfolding data_get
  map_get n lm k s =
      let got = level_get tables n lm.writable k s in
      if not ((tables n).is_not_found got) then got else data_get n lm.immutable k s

  -- `do_freeze_writable`; `none` is a panic.
  unfoldable pub freeze_writable : LeveledMap → Option LeveledMap
  unfolding new_level new_immutable insert new
  freeze_writable lm =
      option_map
        (λ (levels : ImmutableLevels tables). record {
          writable = new_level tables lm.writable;
          immutable = new levels lm.immutable.persisted;
          uniq = suc lm.uniq;
        })
        (insert tables (new_immutable tables lm.uniq lm.writable) lm.immutable.levels)

  unfoldable pub replace_immutable_levels : ImmutableLevels tables → LeveledMap → LeveledMap
  unfolding new
  replace_immutable_levels levels lm = record lm { immutable = new levels lm.immutable.persisted }

  abbrev pub left_levels :
      Option LevelIndex → ImmutableLevels tables → Option (ImmutableLevels tables)
  left_levels none ls = some ls
  left_levels (some upto) ls = remove_levels_upto tables upto ls

  -- `replace_with_compacted`, with the data that the compactor had cloned; `none` is a panic.
  unfoldable pub replace_with_compacted : ImmutableData → db.File → LeveledMap → Option LeveledMap
  unfolding remove_levels_upto new
  replace_with_compacted compacted f lm =
      option_map
        (λ (levels : ImmutableLevels tables). record lm { immutable = new levels (some f) })
        (left_levels compacted.last_level_index lm.immutable.levels)

  abbrev pub updated : (m : Mvcc) → Option m.Changes → m.Table → m.Table
  updated m none t = t
  updated m (some changes) t = m.apply_changes t changes

  -- `Commit`: the changes of each namespace, then the sequence number
  unfoldable pub commit :
      ℕ → Option (tables user).Changes → Option (tables expire).Changes → LeveledMap → LeveledMap
  unfolding update_seq
  commit last_seq user_updates expire_updates lm = record lm {
    writable = record {
      sys_data = update_seq lm.writable.sys_data last_seq;
      kv = updated (tables user) user_updates lm.writable.kv;
      expired = updated (tables expire) expire_updates lm.writable.expired;
    };
  }

  -- The indexes that the log of a compaction reads: of both lists up to the first difference, and of the one before;
  -- `none` is an index out of bounds.
  unfoldable pub logged : ℕ → List LevelIndex → List LevelIndex → Option (Unit {0})
  logged i olds [] = some tt
  logged i [] (n ∷ ns) = none
  logged i (o ∷ olds) (n ∷ ns) =
      let rest = logged (suc i) olds ns in
      if index_eq o n then rest else if i == 0 then none else some tt

  abbrev pub index_opt_eq : Option LevelIndex → Option LevelIndex → Bool
  index_opt_eq a b = option_eq index_eq a b

  -- The derived `PartialEq` of the statistics
  abbrev pub stat_eq : LevelStat → LevelStat → Bool
  stat_eq a b =
      index_opt_eq a.level_index b.level_index
      && a.user_count == b.user_count
      && a.expire_count == b.expire_count

  abbrev pub stats_eq : List LevelStat → List LevelStat → Bool
  stats_eq [] [] = true
  stats_eq (a ∷ as') (b ∷ bs) = stat_eq a b && stats_eq as' bs
  stats_eq _ _ = false

  abbrev pub index_of : Immutable tables → LevelIndex
  index_of i = i.index

  abbrev pub replaced :
      Option Skip → ImmutableLevels tables → ImmutableLevels tables → LeveledMap → Option LeveledMap
  replaced (some skip) old merged lm = some lm
  replaced none old merged lm =
      if stats_eq (levels_stat tables old) (levels_stat tables merged)
      then some lm
      else option_map (λ _. replace_immutable_levels merged lm)
          (logged 0 (map index_of old) (map index_of merged))

  -- `ImmutableCompactor::compact`; `none` is a panic.
  unfoldable pub compact : ℕ → LeveledMap → Option LeveledMap
  unfolding need_compact compact_min_adjacent levels_stat logged replace_immutable_levels
  compact min_snapshot_seq lm =
      let old = lm.immutable.levels in
      replaced (need_compact tables old) old (compact_min_adjacent tables old min_snapshot_seq) lm
