-- ===== src/Examples/Levels.antt =====
-- A map of three levels, and one whose levels are compacted.
use databend_meta.Common.{ℕ, ◌*◌, ◌≡◌, ◌≤◌, refl, arith, none, some, List, [], ◌∷◌, ◌++◌}
use databend_meta.Common.Int.{u64_max}
use databend_meta.Types.SysData
use databend_meta.Types.SysData.{SysData, curr_seq}
use databend_meta.LeveledStore.Mvcc.{Space, user, expire}
use databend_meta.LeveledStore.Level.{Level, Immutable, size}
use databend_meta.LeveledStore.Levels.{ImmutableLevels, levels_get}
use databend_meta.LeveledStore.Compact.{fits, search, smaller}
use databend_meta.LeveledStore.LeveledMap
use databend_meta.LeveledStore.LeveledMap.{
  LeveledMap, ImmutableData, map_get, compact, replace_with_compacted, data_get, freeze_writable,
  commit,
}
use databend_meta.LeveledStore.Reads.{IsNewer, IsAbove}
use databend_meta.LeveledStore.Snapshot.{reads, MapIsValid}
use databend_meta.LeveledStore.Compacted.{Compaction, compact_lem}
use databend_meta.LeveledStore.Newest
use databend_meta.LeveledStore.Newest.{newest-Steps}
use databend_meta.LeveledStore.Persisted.{Holds}
use databend_meta.LeveledStore.Repeatable.{Steps, committed, frozen, done, next, reads-Steps}
use databend_meta.Examples.Tables.{Version, see, spaces, spaces_lawful, files}

abbrev at_seq : ℕ → SysData
at_seq n = record SysData.default { sequence = n }

-- "1" is written at a sequence number.
abbrev one : ℕ → List Version
one n = record { key = 1; seq = n; content = some (n * 10) } ∷ []

abbrev level : ℕ → Level spaces
level n = record { sys_data = at_seq n; kv = one n; expired = [] }

abbrev immutable : ℕ → ℕ → Immutable spaces
immutable n uniq = record { index = record { internal_seq = n; uniq = uniq }; level = level n }

abbrev lm : LeveledMap spaces files
lm = record {
  writable = level 3;
  immutable = record {
    last_seq = 2;
    last_level_index = some (record { internal_seq = 2; uniq = 1 });
    levels = immutable 2 1 ∷ immutable 1 0 ∷ [];
    persisted = none;
  };
  uniq = 2;
}

in_order : (s a b : ℕ) → b ≤ a → IsNewer spaces spaces_lawful s (level a) (level b)
unfolding see
in_order s a b h user k found other = ground arith
in_order s a b h expire k found other = cc

abbrev blank : ℕ → Level spaces
blank n = record { sys_data = at_seq n; kv = []; expired = [] }

below_blank : (s : ℕ) (l : Level spaces) (n : ℕ) → IsNewer spaces spaces_lawful s (blank n) l
unfolding see
below_blank s l n user k found other = cc
below_blank s l n expire k found other = cc

above_blank : (s : ℕ) (l : Level spaces) (n : ℕ) → IsNewer spaces spaces_lawful s l (blank n)
unfolding see
above_blank s l n user k found other = cc
above_blank s l n expire k found other = cc

lm_valid : (s : ℕ) → MapIsValid spaces files spaces_lawful s lm
unfolding curr_seq
lm_valid s = record {
  descending = ((refl, tt), (tt, tt));
  old = (omega arith, (omega arith, tt));
  versions = ((in_order s 2 1 (omega arith), tt), (tt, tt));
  newest = (in_order s 3 2 (omega arith), (in_order s 3 1 (omega arith), tt));
}

-- "1" is written once more, and the writable level is frozen.
abbrev after : LeveledMap spaces files
after = record {
  writable = record { sys_data = record (at_seq 5) { data_seq = some 1 }; kv = []; expired = [] };
  immutable = record {
    last_seq = 5;
    last_level_index = some (record { internal_seq = 5; uniq = 2 });
    levels =
        record {
          index = record { internal_seq = 5; uniq = 2 };
          level = record { sys_data = at_seq 5; kv = one 5 ++ one 3; expired = [] };
        }
        ∷ immutable 2 1
        ∷ immutable 1 0
        ∷ [];
    persisted = none;
  };
  uniq = 3;
}

steps : Steps spaces files spaces_lawful 2 lm after
unfolding commit freeze_writable curr_seq
steps =
    next
      (committed 5 (some (record { key = 1; seq = 5; content = some 50 })) none (omega arith)
        (omega arith) tt)
      (next (frozen refl) done)

reads-Steps_example :
    MapIsValid spaces files spaces_lawful 2 after
    × ((n : Space) (k : ℕ)
        → reads spaces files spaces_lawful 2 n after k ≡ reads spaces files spaces_lawful 2 n lm k)
reads-Steps_example = reads-Steps spaces files spaces_lawful 2 (lm_valid 2) steps

-- Six levels, of which four are empty.
abbrev empty_at : ℕ → Immutable spaces
empty_at uniq = record { index = record { internal_seq = 3; uniq = uniq }; level = blank 3 }

abbrev two_written : ImmutableLevels spaces
two_written = immutable 2 1 ∷ immutable 1 0 ∷ []

abbrev six : ImmutableLevels spaces
six = empty_at 5 ∷ empty_at 4 ∷ empty_at 3 ∷ empty_at 2 ∷ two_written

blank_above : (s n : ℕ) (ls : ImmutableLevels spaces) → IsAbove spaces spaces_lawful s (blank n) ls
blank_above s n [] = tt
blank_above s n (j ∷ js) = (below_blank s j.level n, blank_above s n js)

abbrev crowded : LeveledMap spaces files
crowded = record {
  writable = level 3;
  immutable = record {
    last_seq = 3;
    last_level_index = some (record { internal_seq = 3; uniq = 5 });
    levels = six;
    persisted = none;
  };
  uniq = 6;
}

crowded_valid : (s : ℕ) → MapIsValid spaces files spaces_lawful s crowded
unfolding curr_seq
crowded_valid s = record {
  descending = (
    (refl, (refl, (refl, (refl, (refl, tt))))),
    (
      (refl, (refl, (refl, (refl, tt)))),
      ((refl, (refl, (refl, tt))), ((refl, (refl, tt)), ((refl, tt), (tt, tt)))),
    ),
  );
  old = omega arith;
  versions = (
    blank_above s 3 (empty_at 4 ∷ empty_at 3 ∷ empty_at 2 ∷ two_written),
    (
      blank_above s 3 (empty_at 3 ∷ empty_at 2 ∷ two_written),
      (
        blank_above s 3 (empty_at 2 ∷ two_written),
        (blank_above s 3 two_written, ((in_order s 2 1 (omega arith), tt), (tt, tt))),
      ),
    ),
  );
  newest = (
    above_blank s (level 3) 3,
    (
      above_blank s (level 3) 3,
      (
        above_blank s (level 3) 3,
        (
          above_blank s (level 3) 3,
          (in_order s 3 2 (omega arith), (in_order s 3 1 (omega arith), tt)),
        ),
      ),
    ),
  );
}

compact_lem_example :
    (lm' : LeveledMap spaces files) × (compact spaces files u64_max crowded ≡ some lm')
    × Compaction spaces files u64_max crowded lm'
unfolding fits size
compact_lem_example =
    compact_lem spaces files crowded u64_max (crowded_valid u64_max).descending refl

-- The two levels that came last are merged.
abbrev merged : LeveledMap spaces files
merged = record crowded {
  immutable =
      LeveledMap.new spaces files
        (record { index = (empty_at 5).index; level = blank 3 }
          ∷ empty_at 3
          ∷ empty_at 2
          ∷ two_written)
        none;
}

merges : compact spaces files u64_max crowded ≡ some merged
unfolding compact LeveledMap.new fits size search smaller
merges = refl

-- The file that the two levels were written to.
abbrev file : Space → List Version
file user = one 2 ++ one 1
file expire = []

held :
    (s : ℕ) → Holds spaces files spaces_lawful s file (LeveledMap.new spaces files two_written none)
unfolding LeveledMap.new data_get levels_get see
held s user k = ground arith
held s expire k = refl

abbrev exchanged : LeveledMap spaces files
exchanged = record crowded {
  immutable =
      LeveledMap.new spaces files
        (record { index = (empty_at 5).index; level = blank 3 } ∷ empty_at 3 ∷ empty_at 2 ∷ [])
        (some file);
}

background : Newest.Steps spaces files spaces_lawful crowded exchanged
unfolding replace_with_compacted LeveledMap.new fits size
background = Newest.after (Newest.compacted refl merges) (
    Newest.after
      (Newest.persisted (empty_at 5 ∷ empty_at 3 ∷ empty_at 2 ∷ []) two_written file refl
        (held u64_max) refl)
      Newest.idle)

newest-Steps_example :
    MapIsValid spaces files spaces_lawful u64_max exchanged
    × ((n : Space) (k : ℕ)
        → reads spaces files spaces_lawful u64_max n exchanged k
          ≡ reads spaces files spaces_lawful u64_max n crowded k)
newest-Steps_example = newest-Steps spaces files spaces_lawful (crowded_valid u64_max) background
