-- ===== src/Examples/LeveledStore.antt =====
-- Levels of four sizes.
use databend_meta.Common.{ℕ, ◌≡◌, refl, List, [], ◌∷◌, some}
use databend_meta.LeveledStore.Compact.{min_adjacent, search, smaller}

abbrev sizes : List ℕ
sizes = 5 ∷ 3 ∷ 4 ∷ 9 ∷ []

chooses_middle : min_adjacent sizes ≡ some 1
unfolding min_adjacent search smaller
chooses_middle = refl
