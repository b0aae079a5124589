-- ===== src/Versions/Rounds.antt =====
-- One round of the loops over the features.
use databend_meta.Common.{
  ◌≡◌, ◌∙◌, sym, ap, Bool, true, false, Bool-cases, inl, inr, not, ◌&&◌, ◌||◌, Option, some,
  if◌then◌else◌,
}
use databend_meta.Versions.Version.{
  Version, highest, lt, le, version_eq, greater, lesser, le-greater, lt-lesser,
}
use databend_meta.Versions.Spec.{
  FeatureSet, FeatureSpan, Range, is_active_at, narrow_server, narrow_client,
}
use databend_meta.Versions.Truth.{regroup, and_true, skipped, capped, floored, kept, not_highest}

abbrev pub inside : Range → Version → Bool
inside (lo, hi) v = le lo v && lt v hi

-- A feature that the client uses is provided by the server.
abbrev pub provided : Option FeatureSpan → Option FeatureSpan → Version → Version → Bool
provided (some client) (some server) c s = not (is_active_at client c) || is_active_at server s
provided _ _ c s = true

module _ (set : FeatureSet) where
  pub inside-narrow_server :
      (c s : Version) (client server : FeatureSpan) (lo hi : Version)
      → inside (narrow_server set c client server (lo, hi)) s
        ≡ (inside (lo, hi) s && (not (is_active_at client c) || is_active_at server s))
  inside-narrow_server c s client server lo hi = elim (Bool-cases (is_active_at client c)) [
    | inl used ↦
        ap
          (λ b.
            inside (if b then (greater lo server.since, lesser hi server.until) else (lo, hi)) s)
          used
        ∙ ap (λ x. x && lt s (lesser hi server.until)) (le-greater lo server.since s)
        ∙ ap (λ y. (le lo s && le server.since s) && y) (lt-lesser hi server.until s)
        ∙ regroup (le lo s) (le server.since s) (lt s hi) (lt s server.until)
        ∙ ap (λ b. inside (lo, hi) s && (not b || is_active_at server s)) (sym used)
    | inr unused ↦
        ap
          (λ b.
            inside (if b then (greater lo server.since, lesser hi server.until) else (lo, hi)) s)
          unused
        ∙ and_true (inside (lo, hi) s)
        ∙ ap (λ b. inside (lo, hi) s && (not b || is_active_at server s)) (sym unused)
  ]

  -- What a round chooses, by its three tests.
  abbrev chosen : Bool → Bool → Bool → Version → Version → FeatureSpan → Range
  chosen never early gone lo hi client =
      if never
      then (lo, hi)
      else if early
      then (lo, lesser hi client.since)
      else if gone
      then (greater lo client.until, hi)
      else (lo, hi)

  pub narrow_client-inside :
      (c s : Version) (client server : FeatureSpan) (lo hi : Version)
      → lt c highest ≡ true
      → inside (narrow_client set s client server (lo, hi)) c ≡ true
      → (inside (lo, hi) c ≡ true) × ((not (is_active_at client c) || is_active_at server s) ≡ true)
  narrow_client-inside c s client server lo hi below h =
      let never = version_eq client.since highest in
      let early = lt s server.since in
      let gone = le server.until s in
      elim (Bool-cases never) [
        | inl e ↦
            skipped (inside (lo, hi) c) (le client.since c) (lt c client.until)
              (is_active_at server s)
              (ap (λ b. inside (chosen b early gone lo hi client) c) (sym e) ∙ h)
              (not_highest client.since c e below)
        | inr e ↦
            let h1 : inside (chosen false early gone lo hi client) c ≡ true =
              ap (λ b. inside (chosen b early gone lo hi client) c) (sym e) ∙ h in
            elim (Bool-cases early) [
              | inl f ↦
                  capped (le lo c) (lt c hi) (lt c client.since) (lt c client.until)
                    (is_active_at server s)
                    (ap (λ y. le lo c && y) (sym (lt-lesser hi client.since c))
                      ∙ ap (λ b. inside (chosen false b gone lo hi client) c) (sym f)
                      ∙ h1)
              | inr f ↦
                  let h2 : inside (chosen false false gone lo hi client) c ≡ true =
                    ap (λ b. inside (chosen false b gone lo hi client) c) (sym f) ∙ h1 in
                  elim (Bool-cases gone) [
                    | inl g ↦
                        floored (le lo c) (lt c hi) (le client.since c) (lt c client.until)
                          (is_active_at server s)
                          (ap (λ y. y && lt c hi) (sym (le-greater lo client.until c))
                            ∙ ap (λ b. inside (chosen false false b lo hi client) c) (sym g)
                            ∙ h2)
                    | inr g ↦
                        kept (inside (lo, hi) c) (is_active_at client c) early (lt s server.until)
                          (ap (λ b. inside (chosen false false b lo hi client) c) (sym g) ∙ h2) f g
                  ]
            ]
      ]

  -- A round only narrows.
  pub narrow_client_within :
      (c s : Version) (client server : FeatureSpan) (lo hi : Version)
      → inside (narrow_client set s client server (lo, hi)) c ≡ true
      → inside (lo, hi) c ≡ true
  narrow_client_within c s client server lo hi =
      within (version_eq client.since highest) (lt s server.since) (le server.until s)
    where
      within :
          (never early gone : Bool)
          → inside (chosen never early gone lo hi client) c ≡ true
          → inside (lo, hi) c ≡ true
      within true early gone h = h
      within false true gone h =
          (capped (le lo c) (lt c hi) (lt c client.since) true true
            (ap (λ y. le lo c && y) (sym (lt-lesser hi client.since c)) ∙ h)).0
      within false false true h =
          (floored (le lo c) (lt c hi) true (lt c client.until) true
            (ap (λ y. y && lt c hi) (sym (le-greater lo client.until c)) ∙ h)).0
      within false false false h = h
