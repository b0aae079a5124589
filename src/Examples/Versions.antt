-- ===== src/Examples/Versions.antt =====
-- Versions with two features: the server has both since 1.2.0 and drops the second at 2.0.0, a client has the first since
-- 1.3.0 and has used the second until 1.5.0.
use databend_meta.Common.{
  ◌≡◌, refl, Bool, true, false, Option, none, some, [], ◌∷◌, if◌then◌else◌, is_some,
}
use databend_meta.Versions.Version.{Version, highest}
use databend_meta.Versions.Spec.{
  FeatureSet, FeatureSpan, FeatureSpec, Range, build, compatible_peer_range,
  min_compatible_server_version, min_compatible_client_version,
}
use databend_meta.Versions.History.{ver}
use databend_meta.Versions.Raft.{raft, raft_spec, peers, compatible_peer_range-raft_spec}
use databend_meta.Versions.Grpc.{grpc, grpc_spec, min_compatible_versions-grpc_spec}
use databend_meta.Versions.Ranges.{provides}
use databend_meta.Versions.Peers.{compatible_peer_range_sound, compatible_peer_range_total}

abbrev two : FeatureSet
two = record {
  Feature = Bool;
  all = true ∷ false ∷ [];
  same = λ a b. if a then b else (if b then false else true);
}

abbrev span : Version → Version → FeatureSpan
span since until = record { since = since; until = until; optional_since = none }

abbrev server_spans : Bool → Option FeatureSpan
server_spans true = some (span (ver 1 2 0) highest)
server_spans false = some (span (ver 1 2 0) (ver 2 0 0))

abbrev client_spans : Bool → Option FeatureSpan
client_spans true = some (span (ver 1 3 0) highest)
client_spans false = some (span (ver 1 0 0) (ver 1 5 0))

abbrev spec : FeatureSpec two
spec = record {
  version = ver 1 4 0;
  server_features = λ f. server_spans f;
  client_features = λ f. client_spans f;
}

compatible_peer_range_sound_example :
    (provides two spec two.all (ver 1 4 0) (ver 1 9 0) ≡ true)
    × (provides two spec two.all (ver 1 9 0) (ver 1 4 0) ≡ true)
unfolding compatible_peer_range
compatible_peer_range_sound_example =
    compatible_peer_range_sound two spec (ver 1 4 0) (ver 1 9 0) (ver 1 2 0, ver 2 0 0) refl refl

compatible_peer_range_total_example :
    (r : Range) × (compatible_peer_range two spec (ver 1 4 0) ≡ some r)
unfolding build
compatible_peer_range_total_example =
    compatible_peer_range_total two (ver 1 4 0) (λ f. server_spans f) (λ f. client_spans f) spec
      (ver 1 4 0) refl

-- What `new` of a spec returns, since it returns
abbrev returned : {A : Type 0} (o : Option A) → is_some o ≡ true → A
returned none h = absurd (cc)
returned (some a) h = a

some-returned : {A : Type 0} (o : Option A) (h : is_some o ≡ true) → o ≡ some (returned o h)
some-returned none h = cc
some-returned (some a) h = refl

raft_returns : is_some (raft_spec (ver 260512 0 0)) ≡ true
unfolding raft_spec
raft_returns = refl

grpc_returns : is_some (grpc_spec (ver 260512 0 0)) ≡ true
unfolding grpc_spec
grpc_returns = refl

compatible_peer_range-raft_spec_example :
    compatible_peer_range raft (returned (raft_spec (ver 260512 0 0)) raft_returns) (ver 1 2 768)
    ≡ some (peers (ver 1 2 768))
compatible_peer_range-raft_spec_example =
    compatible_peer_range-raft_spec (ver 260512 0 0) (ver 1 2 768)
      (returned (raft_spec (ver 260512 0 0)) raft_returns)
      (some-returned (raft_spec (ver 260512 0 0)) raft_returns) refl

min_compatible_versions-grpc_spec_example :
    (min_compatible_server_version grpc (returned (grpc_spec (ver 260512 0 0)) grpc_returns)
      ≡ some (ver 260217 0 0))
    × (min_compatible_client_version grpc (returned (grpc_spec (ver 260512 0 0)) grpc_returns)
        ≡ some (ver 1 2 676))
min_compatible_versions-grpc_spec_example =
    min_compatible_versions-grpc_spec (ver 260512 0 0)
      (returned (grpc_spec (ver 260512 0 0)) grpc_returns)
      (some-returned (grpc_spec (ver 260512 0 0)) grpc_returns) refl refl
