-- ===== src/Versions/Ranges.antt =====
-- What the ranges of compatible versions promise.
use databend_meta.Common.{
  ◌≡◌, ◌∙◌, refl, sym, ap, Bool, true, not, ◌&&◌, ◌||◌, Option, none, some, List, [], ◌∷◌,
  unwrap_or,
}
use databend_meta.Versions.Version.{Version, lowest, highest, lt, le, le-lowest}
use databend_meta.Versions.Spec.{
  FeatureSet, FeatureSpan, FeatureSpec, Range, is_active_at, narrow_server, narrow_client,
  narrow_all, rounds, bind, compatible_server_range, compatible_client_range,
}
use databend_meta.Versions.Truth.{and_assoc, both, parts, and_true}
use databend_meta.Versions.Rounds.{
  inside, provided, inside-narrow_server, narrow_client-inside, narrow_client_within,
}

module _ (set : FeatureSet) where
  open set use {Feature, all}

  -- Every feature that a client of version `c` uses is provided by a server of version `s`.
  pub provides : FeatureSpec set → List Feature → Version → Version → Bool
  provides spec [] c s = true
  provides spec (f ∷ fs) c s =
      provided (spec.client_features f) (spec.server_features f) c s && provides spec fs c s

  -- The rounds over a list of features.
  rounds_server :
      (spec : FeatureSpec set) (c s : Version) (fs : List Feature) (r r' : Range)
      → narrow_all set (narrow_server set c) spec fs r ≡ some r'
      → inside r' s ≡ (inside r s && provides spec fs c s)
  unfolding narrow_all provides
  rounds_server spec c s [] r r' h =
      ap (λ (o : Option Range). inside (unwrap_or o r) s) (sym h) ∙ and_true (inside r s)
  rounds_server spec c s (f ∷ fs) r r' h =
      go (spec.client_features f) (spec.server_features f) (λ q. rounds_server spec c s fs q r') h
    where
      go :
          (client server : Option FeatureSpan)
          → ((q : Range)
              → narrow_all set (narrow_server set c) spec fs q ≡ some r'
              → inside r' s ≡ (inside q s && provides spec fs c s))
          → bind set
              (rounds set (narrow_server set c) client server r)
              (narrow_all set (narrow_server set c) spec fs)
            ≡ some r'
          → inside r' s ≡ (inside r s && (provided client server c s && provides spec fs c s))
      go (some client) (some server) rest k =
          rest (narrow_server set c client server r) k
          ∙ ap (λ x. x && provides spec fs c s) (inside-narrow_server set c s client server r.0 r.1)
          ∙ and_assoc (inside r s) (not (is_active_at client c) || is_active_at server s)
              (provides spec fs c s)
      go (some client) none rest k = cc
      go none server rest k = cc

  rounds_client_within :
      (spec : FeatureSpec set) (c s : Version) (fs : List Feature) (r r' : Range)
      → narrow_all set (narrow_client set s) spec fs r ≡ some r'
      → inside r' c ≡ true
      → inside r c ≡ true
  unfolding narrow_all
  rounds_client_within spec c s [] r r' h k =
      ap (λ (o : Option Range). inside (unwrap_or o r) c) h ∙ k
  rounds_client_within spec c s (f ∷ fs) r r' h k =
      go (spec.client_features f) (spec.server_features f)
        (λ q e. rounds_client_within spec c s fs q r' e k) h
    where
      go :
          (client server : Option FeatureSpan)
          → ((q : Range)
              → narrow_all set (narrow_client set s) spec fs q ≡ some r'
              → inside q c ≡ true)
          → bind set
              (rounds set (narrow_client set s) client server r)
              (narrow_all set (narrow_client set s) spec fs)
            ≡ some r'
          → inside r c ≡ true
      go (some client) (some server) rest e =
          narrow_client_within set c s client server r.0 r.1
            (rest (narrow_client set s client server r) e)
      go (some client) none rest e = cc
      go none server rest e = cc

  rounds_client :
      (spec : FeatureSpec set) (c s : Version) (fs : List Feature) (r r' : Range)
      → lt c highest ≡ true
      → narrow_all set (narrow_client set s) spec fs r ≡ some r'
      → inside r' c ≡ true
      → provides spec fs c s ≡ true
  unfolding narrow_all provides
  rounds_client spec c s [] r r' below h k = refl
  rounds_client spec c s (f ∷ fs) r r' below h k =
      go (spec.client_features f) (spec.server_features f)
        (λ q e. rounds_client spec c s fs q r' below e k) h
    where
      go :
          (client server : Option FeatureSpan)
          → ((q : Range)
              → narrow_all set (narrow_client set s) spec fs q ≡ some r'
              → provides spec fs c s ≡ true)
          → bind set
              (rounds set (narrow_client set s) client server r)
              (narrow_all set (narrow_client set s) spec fs)
            ≡ some r'
          → (provided client server c s && provides spec fs c s) ≡ true
      go (some client) (some server) rest e =
          both (provided (some client) (some server) c s) (provides spec fs c s)
            (narrow_client-inside set c s client server r.0 r.1 below
              (rounds_client_within spec c s fs (narrow_client set s client server r) r' e k)).1
            (rest (narrow_client set s client server r) e)
      go (some client) none rest e = cc
      go none server rest e = cc

  -- A server version lies in the range for a client exactly where it is below the highest version and provides every
  -- feature that the client uses.
  pub compatible_server_range_exact :
      (spec : FeatureSpec set) (c s : Version) (r : Range)
      → compatible_server_range set spec c ≡ some r
      → inside r s ≡ (lt s highest && provides spec all c s)
  unfolding compatible_server_range
  compatible_server_range_exact spec c s r h =
      rounds_server spec c s all (lowest, highest) r h
      ∙ ap (λ x. (x && lt s highest) && provides spec all c s) (le-lowest s)

  -- A server provides every feature that a client uses whose version lies in the range for the server.
  pub compatible_client_range_sound :
      (spec : FeatureSpec set) (c s : Version) (r : Range)
      → compatible_client_range set spec s ≡ some r
      → inside r c ≡ true
      → provides spec all c s ≡ true
  unfolding compatible_client_range
  compatible_client_range_sound spec c s r h k =
      let below : lt c highest ≡ true =
        (parts (le lowest c) (lt c highest)
          (rounds_client_within spec c s all (lowest, highest) r h k)).1 in
      rounds_client spec c s all (lowest, highest) r below h k
