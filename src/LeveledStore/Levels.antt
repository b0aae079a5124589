-- ===== src/LeveledStore/Levels.antt =====
-- immutable_levels/mod.rs, compact_min_adjacent.rs and compact_conductor.rs.
use databend_meta.Common.{
  ℕ, suc, ◌*◌, ◌%◌, min, max, Bool, false, ◌&&◌, ◌||◌, Option, none, some, List, [], ◌∷◌, map,
  length, get_elem?, if◌then◌else◌, ltb, leb, unwrap_or, option_map,
}
use databend_meta.Common.Int.{u64_mod}
use databend_meta.Types.SysData.{curr_seq}
use databend_meta.LeveledStore.Mvcc.{Space, Mvcc}
use databend_meta.LeveledStore.Level.{
  LevelIndex, index_ltb, index_eq, default_index, LevelStat, with_index, stat, Immutable, size,
  compact_immutable, level_get,
}
use databend_meta.LeveledStore.Compact.{min_adjacent}

-- The errors of `need_compact`, by their kind.
pub data Skip : Type 0 where
  not_enough_levels similar_sizes : Skip

-- `BTreeMap<LevelIndex, Immutable>`. Each level stands at its own index, so the map is the list of its levels, here from
-- the newest, whose index is the greatest, to the oldest (`newest_to_oldest`).
module _ (tables : Space → Mvcc) where
  abbrev pub ImmutableLevels : Type 0
  ImmutableLevels = List (Immutable tables)

  -- `BTreeMap::insert`, which replaces a level of the same index
  unfoldable pub put : Immutable tables → ImmutableLevels → ImmutableLevels
  put i [] = i ∷ []
  put i (j ∷ js) =
      if index_ltb j.index i.index
      then i ∷ j ∷ js
      else if index_eq j.index i.index
      then i ∷ js
      else j ∷ put i js

  -- `BTreeMap::remove`
  unfoldable pub remove : LevelIndex → ImmutableLevels → ImmutableLevels
  remove x [] = []
  remove x (j ∷ js) = if index_eq j.index x then js else j ∷ remove x js

  -- `contains_key`
  unfoldable pub contains : LevelIndex → ImmutableLevels → Bool
  contains x [] = false
  contains x (j ∷ js) = index_eq j.index x || contains x js

  -- The levels go in from the oldest to the newest.
  unfoldable pub new_form_iter : ImmutableLevels → ImmutableLevels
  unfolding put
  new_form_iter [] = []
  new_form_iter (j ∷ js) = put j (new_form_iter js)

  unfoldable pub levels_stat : ImmutableLevels → List LevelStat
  unfolding stat with_index
  levels_stat ls = map (λ (i : Immutable tables). with_index (stat tables i.level) i.index) ls

  unfoldable pub newest : ImmutableLevels → Option (Immutable tables)
  newest [] = none
  newest (j ∷ js) = some j

  unfoldable pub newest_level_index : ImmutableLevels → Option LevelIndex
  unfolding newest
  newest_level_index ls = option_map (λ (i : Immutable tables). i.index) (newest ls)

  unfoldable pub last_seq : ImmutableLevels → Option ℕ
  unfolding newest curr_seq
  last_seq ls = option_map (λ (i : Immutable tables). curr_seq i.level.sys_data) (newest ls)

  -- `none` is the panic of the assertion.
  unfoldable pub insert : Immutable tables → ImmutableLevels → Option ImmutableLevels
  unfolding put newest_level_index
  insert i ls =
      let last_used = unwrap_or (newest_level_index ls) default_index in
      if index_ltb last_used i.index
        || (index_eq i.index default_index && index_eq i.index last_used)
      then some (put i ls)
      else none

  -- `split_off` and `pop_first`: the levels above the index.
  unfoldable pub above : LevelIndex → ImmutableLevels → ImmutableLevels
  above x [] = []
  above x (j ∷ js) = let rest = above x js in if index_ltb x j.index then j ∷ rest else rest

  -- `none` is the panic of the assertion.
  unfoldable pub remove_levels_upto : LevelIndex → ImmutableLevels → Option ImmutableLevels
  unfolding contains above
  remove_levels_upto x ls = if contains x ls then some (above x ls) else none

  -- `ScopedSeqBoundedGet` of the levels
  unfoldable pub levels_get : (n : Space) → ImmutableLevels → (tables n).Key → ℕ → (tables n).Marked
  levels_get n [] k s = (tables n).not_found
  levels_get n (j ∷ js) k s =
      let older = levels_get n js k s in
      if (tables n).is_not_found (level_get tables n j.level k s)
      then older
      else level_get tables n j.level k s

  abbrev pub merge_pair :
      Option (Immutable tables) → Option (Immutable tables) → ℕ → ImmutableLevels → ImmutableLevels
  merge_pair (some newer) (some older) min_snapshot_seq ls = new_form_iter (
      put (compact_immutable tables newer older min_snapshot_seq)
        (remove newer.index (remove older.index ls)))
  merge_pair _ _ min_snapshot_seq ls = ls

  abbrev pub merge_at : Option ℕ → ℕ → ImmutableLevels → ImmutableLevels
  merge_at none min_snapshot_seq ls = ls
  merge_at (some i) min_snapshot_seq ls =
      merge_pair (get_elem? ls i) (get_elem? ls (suc i)) min_snapshot_seq ls

  unfoldable pub compact_min_adjacent : ImmutableLevels → ℕ → ImmutableLevels
  unfolding min_adjacent size compact_immutable put remove new_form_iter
  compact_min_adjacent ls min_snapshot_seq =
      merge_at (min_adjacent (map (size tables) ls)) min_snapshot_seq ls

  abbrev min_of : List ℕ → ℕ → ℕ
  min_of [] least = least
  min_of (x ∷ xs) least = min_of xs (min least x)

  abbrev max_of : List ℕ → ℕ → ℕ
  max_of [] most = most
  max_of (x ∷ xs) most = max_of xs (max most x)

  -- `min().unwrap_or(0)` and `max().unwrap_or(0)`
  abbrev pub min_size : List ℕ → ℕ
  min_size [] = 0
  min_size (x ∷ xs) = min_of xs x

  abbrev pub max_size : List ℕ → ℕ
  max_size [] = 0
  max_size (x ∷ xs) = max_of xs x

  -- `none` is `Ok(())`. The factor wraps in a release build.
  unfoldable pub need_compact : ImmutableLevels → Option Skip
  unfolding size
  need_compact ls =
      let sizes = map (size tables) ls in
      let n_levels = length ls in
      if ltb n_levels 6
      then some not_enough_levels
      else if ltb 20 n_levels
      then none
      else if leb (max_size sizes) (min_size sizes * 4 % u64_mod)
      then some similar_sizes
      else none
