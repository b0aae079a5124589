-- ===== src/LeveledStore/Level.antt =====
-- level/mod.rs, level/stat.rs, level_index.rs, immutable/mod.rs and immutable/compact.rs.
use databend_meta.Common.{
  ℕ, ◌+◌, ◌%◌, Bool, true, ◌&&◌, Option, none, some, if◌then◌else◌, ltb, ◌==◌,
}
use databend_meta.Common.Int.{u64_mod}
use databend_meta.Types.SysData.{SysData, curr_seq, incr_data_seq}
use databend_meta.LeveledStore.Mvcc.{Space, user, expire, Mvcc}

pub record LevelIndex : Type 0 where
  pub internal_seq : ℕ
  pub uniq : ℕ

-- The derived `Ord` and `PartialEq`
abbrev pub index_ltb : LevelIndex → LevelIndex → Bool
index_ltb a b =
    if ltb a.internal_seq b.internal_seq
    then true
    else a.internal_seq == b.internal_seq && ltb a.uniq b.uniq

abbrev pub index_eq : LevelIndex → LevelIndex → Bool
index_eq a b = a.internal_seq == b.internal_seq && a.uniq == b.uniq

-- `Default`
abbrev pub default_index : LevelIndex
default_index = record { internal_seq = 0; uniq = 0 }

pub record LevelStat : Type 0 where
  pub level_index : Option LevelIndex
  pub user_count : ℕ
  pub expire_count : ℕ

unfoldable pub with_index : LevelStat → LevelIndex → LevelStat
with_index st index = record st { level_index = some index }

module _ (tables : Space → Mvcc) where
  pub record Level : Type 0 where
    pub sys_data : SysData
    pub kv : (tables user).Table
    pub expired : (tables expire).Table

  -- `GetSubTable`
  abbrev pub get_sub_table : (n : Space) → Level → (tables n).Table
  get_sub_table user l = l.kv
  get_sub_table expire l = l.expired

  -- `ScopedSeqBoundedGet` of a level
  abbrev pub level_get : (n : Space) → Level → (tables n).Key → ℕ → (tables n).Marked
  level_get n l k s = (tables n).get (get_sub_table n l) k s

  unfoldable pub new_level : Level → Level
  unfolding incr_data_seq
  new_level l = record {
    sys_data = (incr_data_seq l.sys_data).1;
    kv = (tables user).empty;
    expired = (tables expire).empty;
  }

  unfoldable pub stat : Level → LevelStat
  stat l = record {
    level_index = none;
    user_count = (tables user).len l.kv;
    expire_count = (tables expire).len l.expired;
  }

  -- `Level::compact`
  unfoldable pub compact : Level → Level → ℕ → Level
  unfolding curr_seq
  compact l other min_snapshot_seq = record {
    sys_data =
        if ltb (curr_seq other.sys_data) (curr_seq l.sys_data) then l.sys_data else other.sys_data;
    kv = (tables user).compact l.kv other.kv min_snapshot_seq;
    expired = (tables expire).compact l.expired other.expired min_snapshot_seq;
  }

  pub record Immutable : Type 0 where
    pub index : LevelIndex
    pub level : Level

  -- `Immutable::new`, with the number that the process counter yields
  unfoldable pub new_immutable : ℕ → Level → Immutable
  unfolding curr_seq
  new_immutable uniq l = record {
    index = record { internal_seq = curr_seq l.sys_data; uniq = uniq };
    level = l;
  }

  unfoldable pub size : Immutable → ℕ
  size i = ((tables user).len i.level.kv + (tables expire).len i.level.expired) % u64_mod

  -- `Immutable::compact`
  unfoldable pub compact_immutable : Immutable → Immutable → ℕ → Immutable
  unfolding compact
  compact_immutable i other min_snapshot_seq = record {
    index = if index_ltb other.index i.index then i.index else other.index;
    level = compact i.level other.level min_snapshot_seq;
  }
