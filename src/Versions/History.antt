-- ===== src/Versions/History.antt =====
-- The calls of `add`, `add_optional` and `remove` by which raft_spec.rs and grpc_spec.rs write the history of their features, as
-- a list in the order of the source.
use databend_meta.Common.{ℕ, Option, none, List, [], ◌∷◌, ◌==◌}
use databend_meta.Versions.Version.{Version}
use databend_meta.Versions.Spec.{
  FeatureSet, Features, FeatureSpec, add, add_optional, remove, build,
}

pub data FeatureChange (F : Type 0) : Type 0 where
  added added_optional removed : F → Version → FeatureChange F

abbrev pub ver : ℕ → ℕ → ℕ → Version
ver major minor patch = record { major = major; minor = minor; patch = patch }

-- The features of an enum, told apart by their places in it
abbrev pub by_place : {F : Type 0} → List F → (F → ℕ) → FeatureSet
by_place {F} all place = record { Feature = F; all = all; same = λ a b. place a == place b }

module _ (set : FeatureSet) where
  abbrev pub apply_change : Features set → FeatureChange set.Feature → Features set
  unfolding add add_optional remove
  apply_change features (added f v) = add set features f v
  apply_change features (added_optional f v) = add_optional set features f v
  apply_change features (removed f v) = remove set features f v

  unfoldable pub history : Features set → List (FeatureChange set.Feature) → Features set
  unfolding add add_optional remove
  history features [] = features
  history features (c ∷ cs) = history (apply_change features c) cs

  -- `new` of a spec, from two empty maps; the calls for servers and for clients are in two lists.
  unfoldable pub spec_of :
      List (FeatureChange set.Feature)
      → List (FeatureChange set.Feature)
      → Version
      → Option (FeatureSpec set)
  unfolding history build
  spec_of server client version =
      build set version (history (λ f. none) server) (history (λ f. none) client)
