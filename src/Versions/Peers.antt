-- ===== src/Versions/Peers.antt =====
-- Peers of a raft cluster, which are servers and clients of each other.
use databend_meta.Common.{
  ◌≡◌, ◌∙◌, refl, sym, ap, Bool, true, false, ◌&&◌, Option, none, some, List, [], ◌∷◌, is_some,
  if◌then◌else◌, unwrap_or,
}
use databend_meta.Versions.Version.{
  Version, lowest, highest, lt, le, greater, lesser, le-greater, lt-lesser,
}
use databend_meta.Versions.Spec.{
  FeatureSet, FeatureSpan, FeatureSpec, Features, Range, bind, rounds, narrow_all, narrow_server,
  narrow_client, has_all, build, compatible_server_range, compatible_client_range,
  compatible_peer_range,
}
use databend_meta.Versions.Truth.{parts, regroup}
use databend_meta.Versions.Rounds.{inside}
use databend_meta.Versions.Ranges.{
  provides, compatible_server_range_exact, compatible_client_range_sound,
}

module _ (set : FeatureSet) where
  open set use {Feature, all}

  bind_ok :
      {A B : Type 0} (o : Option A) (k : A → Option B) (b : B)
      → bind set o k ≡ some b
      → (a : A) × (o ≡ some a) × (k a ≡ some b)
  bind_ok none k b h = cc
  bind_ok (some a) k b h = (a, refl, h)

  inside_both :
      (slo shi clo chi p : Version)
      → inside (greater slo clo, lesser shi chi) p ≡ true
      → (inside (slo, shi) p ≡ true) × (inside (clo, chi) p ≡ true)
  inside_both slo shi clo chi p h = parts (inside (slo, shi) p) (inside (clo, chi) p) (
      sym (
        ap (λ x. x && lt p (lesser shi chi)) (le-greater slo clo p)
        ∙ ap (λ y. (le slo p && le clo p) && y) (lt-lesser shi chi p)
        ∙ regroup (le slo p) (le clo p) (lt p shi) (lt p chi))
      ∙ h)

  -- A peer whose version lies in the range for a node and the node provide each other's clients with every feature
  -- that these use.
  pub compatible_peer_range_sound :
      (spec : FeatureSpec set) (n p : Version) (r : Range)
      → compatible_peer_range set spec n ≡ some r
      → inside r p ≡ true
      → (provides set spec all n p ≡ true) × (provides set spec all p n ≡ true)
  unfolding compatible_peer_range
  compatible_peer_range_sound spec n p r h k =
      let ((slo, shi), server, rest) =
        bind_ok (compatible_server_range set spec n)
          (λ (slo, shi).
            bind set (compatible_client_range set spec n)
              λ (clo, chi). some (greater slo clo, lesser shi chi))
          r h in
      let ((clo, chi), client, last) =
        bind_ok (compatible_client_range set spec n)
          (λ (clo, chi). some (greater slo clo, lesser shi chi)) r rest in
      let within : inside (greater slo clo, lesser shi chi) p ≡ true =
        ap (λ (o : Option Range). inside (unwrap_or o r) p) last ∙ k in
      let (s, c) = inside_both slo shi clo chi p within in
      (
        (parts (lt p highest) (provides set spec all n p)
            (sym (compatible_server_range_exact set spec n p (slo, shi) server) ∙ s)).1,
        compatible_client_range_sound set spec p n (clo, chi) client c,
      )

  rounds-total :
      (f : FeatureSpan → FeatureSpan → Range → Range) (client server : Option FeatureSpan)
      (r : Range)
      → is_some server ≡ true
      → is_some client ≡ true
      → (q : Range) × (rounds set f client server r ≡ some q)
  rounds-total f (some client) (some server) r h k = (f client server r, refl)
  rounds-total f none server r h k = cc
  rounds-total f (some client) none r h k = cc

  narrow_all_total :
      (f : FeatureSpan → FeatureSpan → Range → Range) (spec : FeatureSpec set) (fs : List Feature)
      (r : Range)
      → has_all set fs spec.server_features ≡ true
      → has_all set fs spec.client_features ≡ true
      → (q : Range) × (narrow_all set f spec fs r ≡ some q)
  unfolding narrow_all has_all
  narrow_all_total f spec [] r h k = (r, refl)
  narrow_all_total f spec (x ∷ xs) r h k =
      let (hx, hs) =
        parts (is_some (spec.server_features x)) (has_all set xs spec.server_features) h in
      let (kx, ks) =
        parts (is_some (spec.client_features x)) (has_all set xs spec.client_features) k in
      let (q, e) = rounds-total f (spec.client_features x) (spec.server_features x) r hx kx in
      let (q', e') = narrow_all_total f spec xs q hs ks in
      (q', ap (λ o. bind set o (narrow_all set f spec xs)) e ∙ e')

  build_ok :
      (v : Version) (server client : Features set) (spec : FeatureSpec set)
      → build set v server client ≡ some spec
      → (has_all set all spec.server_features ≡ true)
        × (has_all set all spec.client_features ≡ true)
  unfolding build
  build_ok v server client spec h = go (has_all set all server) (has_all set all client) refl refl h
    where
      go :
          (a b : Bool)
          → has_all set all server ≡ a
          → has_all set all client ≡ b
          → (if a && b
              then some (record { version = v; server_features = server; client_features = client })
              else none)
            ≡ some spec
          → (has_all set all spec.server_features ≡ true)
            × (has_all set all spec.client_features ≡ true)
      go true true ea eb k =
          let same : ◌≡◌ {A = FeatureSpec set}
              (record { version = v; server_features = server; client_features = client }) spec =
            ap (λ (o : Option (FeatureSpec set)). unwrap_or o spec) k in
          (
            ap (λ s. has_all set all s.server_features) (sym same) ∙ ea,
            ap (λ s. has_all set all s.client_features) (sym same) ∙ eb,
          )
      go true false ea eb k = cc
      go false b ea eb k = cc

  -- From a spec that was built, the range of peers can be computed for every version: no lookup of a feature fails.
  pub compatible_peer_range_total :
      (v : Version) (server client : Features set) (spec : FeatureSpec set) (n : Version)
      → build set v server client ≡ some spec
      → (r : Range) × (compatible_peer_range set spec n ≡ some r)
  unfolding compatible_peer_range
  compatible_peer_range_total v server client spec n h =
      let (hs, hc) = build_ok v server client spec h in
      let (s, es) = narrow_all_total (narrow_server set n) spec all (lowest, highest) hs hc in
      let (c, ec) = narrow_all_total (narrow_client set n) spec all (lowest, highest) hs hc in
      ((greater s.0 c.0, lesser s.1 c.1), rw (es, ec))
