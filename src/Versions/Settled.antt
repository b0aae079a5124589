-- ===== src/Versions/Settled.antt =====
-- After the last change of its features, the ranges that a spec gives stay the same.
use databend_meta.Common.{
  ◌≡◌, refl, ap, ◌∙◌, arith, Bool, true, ◌&&◌, ◌||◌, Option, none, some, List, [], ◌∷◌,
}
use databend_meta.Versions.Version.{Version, lowest, highest, lt, le, version_eq}
use databend_meta.Versions.Truth.{parts}
use databend_meta.Versions.Spec.{
  FeatureSet, FeatureSpan, FeatureSpec, Range, bind, rounds, narrow_server, narrow_client,
  narrow_all, compatible_server_range, compatible_client_range,
}

-- The version `x` is not after `w`, or never comes.
abbrev pub is_settled : Version → Version → Bool
is_settled w x = le x w || version_eq x highest

abbrev pub span_settled : Version → Option FeatureSpan → Bool
span_settled w none = true
span_settled w (some span) = is_settled w span.since && is_settled w span.until

unfoldable pub all_settled :
    (set : FeatureSet) → FeatureSpec set → Version → List set.Feature → Bool
all_settled set spec w [] = true
all_settled set spec w (x ∷ xs) =
    (span_settled w (spec.client_features x) && span_settled w (spec.server_features x))
    && all_settled set spec w xs

module _ (w b : Version) (from : le w b ≡ true) (released : lt b highest ≡ true) where
  same_lt : (x : Version) → is_settled w x ≡ true → lt b x ≡ lt w x
  same_lt x h = ground arith

  module _ (set : FeatureSet) (spec : FeatureSpec set) where
    same_server :
        (client server : FeatureSpan) (r : Range)
        → (span_settled w (some client) && span_settled w (some server)) ≡ true
        → narrow_server set b client server r ≡ narrow_server set w client server r
    same_server client server (lo, hi) h =
        rw (same_lt client.since (ground arith), same_lt client.until (ground arith))

    same_client :
        (client server : FeatureSpan) (r : Range)
        → (span_settled w (some client) && span_settled w (some server)) ≡ true
        → narrow_client set b client server r ≡ narrow_client set w client server r
    same_client client server (lo, hi) h =
        rw (same_lt server.since (ground arith), same_lt server.until (ground arith))

    same_all :
        (f g : FeatureSpan → FeatureSpan → Range → Range)
        → ((client server : FeatureSpan) (r : Range)
            → (span_settled w (some client) && span_settled w (some server)) ≡ true
            → f client server r ≡ g client server r)
        → (xs : List set.Feature) (r : Range) → all_settled set spec w xs ≡ true
        → narrow_all set f spec xs r ≡ narrow_all set g spec xs r
    unfolding narrow_all all_settled
    same_all f g same [] r h = refl
    same_all f g same (x ∷ xs) r h =
        go (spec.client_features x) (spec.server_features x) (λ q k. same_all f g same xs q k) h
      where
        go :
            (c s : Option FeatureSpan)
            → ((q : Range)
                → all_settled set spec w xs ≡ true
                → narrow_all set f spec xs q ≡ narrow_all set g spec xs q)
            → ((span_settled w c && span_settled w s) && all_settled set spec w xs) ≡ true
            → bind set (rounds set f c s r) (narrow_all set f spec xs)
              ≡ bind set (rounds set g c s r) (narrow_all set g spec xs)
        go (some c) (some s) rest k =
            let (here, others) = parts (span_settled w (some c) && span_settled w (some s)) _ k in
            ap (narrow_all set f spec xs) (same c s r here) ∙ rest (g c s r) others
        go (some c) none rest k = refl
        go none s rest k = refl

    -- From the last change `w` of the features on, every version below the highest one has the ranges of `w`.
    pub compatible_ranges-settled :
        all_settled set spec w set.all ≡ true
        → (compatible_server_range set spec b ≡ compatible_server_range set spec w)
          × (compatible_client_range set spec b ≡ compatible_client_range set spec w)
    unfolding compatible_server_range compatible_client_range
    compatible_ranges-settled h = (
      same_all (narrow_server set b) (narrow_server set w) same_server set.all (lowest, highest) h,
      same_all (narrow_client set b) (narrow_client set w) same_client set.all (lowest, highest) h,
    )
