-- ===== src/LeveledStore/Compact.antt =====
-- immutable_levels/compact_min_adjacent.rs: which two adjacent levels are compacted.
use databend_meta.Common.{
  ℕ, zero, suc, ◌+◌, ◌%◌, ltb, Bool, true, ◌&&◌, Option, none, some, List, ◌∷◌, if◌then◌else◌,
}
use databend_meta.Common.Int.{u64_mod, u64_max}

-- The assignments under `if size < min_size`.
unfoldable pub smaller : ℕ → ℕ → ℕ × ℕ → ℕ × ℕ
smaller size i (min_size, min_index) =
    if ltb size min_size then (size, i) else (min_size, min_index)

-- The loop over `i`, with `min_size` and `min_index`, on the sizes of the levels from the newest to the oldest;
-- the sum of two sizes wraps in a release build.
unfoldable pub search : ℕ → List ℕ → ℕ × ℕ → ℕ × ℕ
search i (newer ∷ older ∷ rest) best =
    search (suc i) (older ∷ rest) (smaller ((newer + older) % u64_mod) i best)
search i _ best = best

-- The index of the newer level of the two; without two levels nothing is compacted.
unfoldable pub min_adjacent : List ℕ → Option ℕ
min_adjacent (newer ∷ older ∷ rest) = some (search 0 (newer ∷ older ∷ rest) (u64_max, 0)).1
min_adjacent _ = none

-- The sizes of the level at an index and of the next older level together.
unfoldable pub size_at : List ℕ → ℕ → Option ℕ
size_at (newer ∷ older ∷ rest) zero = some (newer + older)
size_at (newer ∷ older ∷ rest) (suc i) = size_at (older ∷ rest) i
size_at _ i = none

-- The size of each two adjacent levels is below 2^64.
unfoldable pub fits : List ℕ → Bool
fits (newer ∷ older ∷ rest) = ltb (newer + older) u64_mod && fits (older ∷ rest)
fits _ = true
