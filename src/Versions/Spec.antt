-- ===== src/Versions/Spec.antt =====
-- crates/common/version/src/feature_span.rs, and `compatible_peer_range` of raft_spec.rs. The features are a
-- parameter, as the trait `FeatureSet` has them: a type, the list of all of them, and their equality. `none` is a panic; the
-- debug assertions of `add`, `add_optional` and `remove` are not run in a release build.
use databend_meta.Common.{
  ℕ, Bool, true, ◌&&◌, Option, none, some, List, [], ◌∷◌, is_some, if◌then◌else◌, unwrap_or,
}
use databend_meta.Versions.Version
use databend_meta.Versions.Version.{Version, lowest, highest, lt, le, version_eq, greater, lesser}

-- `FeatureSet`
pub record FeatureSet : Type 1 where
  pub Feature : Type 0
  pub all : List Feature
  pub same : Feature → Feature → Bool

-- `FeatureSpan`, under its feature
pub record FeatureSpan : Type 0 where
  pub since : Version
  pub until : Version
  pub optional_since : Option Version

unfoldable pub new_span : Version → FeatureSpan
new_span since = record { since = since; until = highest; optional_since = none }

unfoldable pub until : FeatureSpan → Version → FeatureSpan
until span v = record span { until = v }

unfoldable pub until3 : FeatureSpan → ℕ → ℕ → ℕ → FeatureSpan
unfolding until Version.new
until3 span major minor patch = until span (Version.new major minor patch)

abbrev pub is_active_at : FeatureSpan → Version → Bool
is_active_at span v = le span.since v && lt v span.until

-- Half-open: from the first version to before the second one.
abbrev pub Range : Type 0
Range = Version × Version

module _ (set : FeatureSet) where
  open set use {Feature, all, same}

  -- `BTreeMap<F, FeatureSpan<F>>`
  abbrev pub Features : Type 0
  Features = Feature → Option FeatureSpan

  abbrev pub insert_span : Features → Feature → FeatureSpan → Features
  insert_span features f span g = if same f g then some span else features g

  -- `entry(feature).or_insert_with(..)`
  abbrev pub span_or_new : Features → Feature → FeatureSpan
  span_or_new features f =
      unwrap_or (features f) (record { since = lowest; until = highest; optional_since = none })

  unfoldable pub add : Features → Feature → Version → Features
  add features f v = insert_span features f (record (span_or_new features f) { since = v })

  unfoldable pub add_optional : Features → Feature → Version → Features
  add_optional features f v =
      insert_span features f
        (record (span_or_new features f) { since = highest; optional_since = some v })

  unfoldable pub remove : Features → Feature → Version → Features
  remove features f v = insert_span features f (record (span_or_new features f) { until = v })

  pub record FeatureSpec : Type 0 where
    pub version : Version
    pub server_features : Features
    pub client_features : Features

  unfoldable pub has_all : List Feature → Features → Bool
  has_all [] features = true
  has_all (f ∷ fs) features = is_some (features f) && has_all fs features

  -- `FeatureSpec::build`, with `assert_all_features`
  unfoldable pub build : Version → Features → Features → Option FeatureSpec
  unfolding has_all
  build version server client =
      if has_all all server && has_all all client
      then some (record { version = version; server_features = server; client_features = client })
      else none

  abbrev pub bind : {A B : Type 0} → Option A → (A → Option B) → Option B
  bind none k = none
  bind (some a) k = k a

  -- One round of the loop of `compatible_server_range`.
  abbrev pub narrow_server : Version → FeatureSpan → FeatureSpan → Range → Range
  narrow_server v client server (lo, hi) =
      if is_active_at client v then (greater lo server.since, lesser hi server.until) else (lo, hi)

  -- One round of the loop of `compatible_client_range`.
  abbrev pub narrow_client : Version → FeatureSpan → FeatureSpan → Range → Range
  narrow_client v client server (lo, hi) =
      if version_eq client.since highest
      then (lo, hi)
      else if lt v server.since
      then (lo, lesser hi client.since)
      else if le server.until v
      then (greater lo client.until, hi)
      else (lo, hi)

  abbrev pub rounds :
      (FeatureSpan → FeatureSpan → Range → Range)
      → Option FeatureSpan
      → Option FeatureSpan
      → Range
      → Option Range
  rounds f (some client) (some server) r = some (f client server r)
  rounds f (some client) none r = none
  rounds f none server r = none

  -- The loop over `F::all()`
  unfoldable pub narrow_all :
      (FeatureSpan → FeatureSpan → Range → Range)
      → FeatureSpec
      → List Feature
      → Range
      → Option Range
  narrow_all f spec [] r = some r
  narrow_all f spec (x ∷ xs) r =
      bind (rounds f (spec.client_features x) (spec.server_features x) r) (narrow_all f spec xs)

  unfoldable pub compatible_server_range : FeatureSpec → Version → Option Range
  unfolding narrow_all
  compatible_server_range spec client_version =
      narrow_all (narrow_server client_version) spec all (lowest, highest)

  unfoldable pub compatible_client_range : FeatureSpec → Version → Option Range
  unfolding narrow_all
  compatible_client_range spec server_version =
      narrow_all (narrow_client server_version) spec all (lowest, highest)

  abbrev pub first_of : Option Range → Option Version
  first_of none = none
  first_of (some (lo, hi)) = some lo

  unfoldable pub min_compatible_server_version : FeatureSpec → Option Version
  unfolding compatible_server_range
  min_compatible_server_version spec = first_of (compatible_server_range spec spec.version)

  unfoldable pub min_compatible_client_version : FeatureSpec → Option Version
  unfolding compatible_client_range
  min_compatible_client_version spec = first_of (compatible_client_range spec spec.version)

  -- `RaftSpec::compatible_peer_range`
  unfoldable pub compatible_peer_range : FeatureSpec → Version → Option Range
  unfolding compatible_server_range compatible_client_range
  compatible_peer_range spec node_version =
      bind (compatible_server_range spec node_version) λ (server_lo, server_hi).
        bind (compatible_client_range spec node_version)
          λ (client_lo, client_hi). some (greater server_lo client_lo, lesser server_hi client_hi)
