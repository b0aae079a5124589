-- ===== src/Versions/Raft.antt =====
-- `RaftFeature` of raft_feat.rs and `RaftSpec::new` of raft_spec.rs, and the peers that every version can work with.
use databend_meta.Common.{
  ℕ, ◌≡◌, refl, subst, arith, Bool, true, false, Option, none, some, List, [], ◌∷◌, if◌then◌else◌,
}
use databend_meta.Versions.Version.{Version, lowest, highest, lt}
use databend_meta.Versions.Spec.{FeatureSet, FeatureSpec, Range, compatible_peer_range}
use databend_meta.Versions.History.{
  FeatureChange, added, added_optional, ver, by_place, history, spec_of,
}

pub data RaftFeature : Type 0 where
  append_entries vote vote_v001 append_v002 snapshot_v003 snapshot_v004 transfer_leader :
      RaftFeature

abbrev place : RaftFeature → ℕ
place append_entries = 0
place vote = 1
place vote_v001 = 2
place append_v002 = 3
place snapshot_v003 = 4
place snapshot_v004 = 5
place transfer_leader = 6

abbrev pub raft : FeatureSet
raft =
    by_place
      (append_entries ∷ vote ∷ vote_v001 ∷ append_v002 ∷ snapshot_v003 ∷ snapshot_v004
        ∷ transfer_leader ∷ [])
      place

abbrev pub raft_server : List (FeatureChange RaftFeature)
raft_server =
    added append_entries (ver 0 0 120)
    ∷ added vote (ver 0 0 120)
    ∷ added snapshot_v003 (ver 1 2 547)
    ∷ added transfer_leader (ver 1 2 599)
    ∷ added vote_v001 (ver 1 2 777)
    ∷ added snapshot_v004 (ver 1 2 818)
    ∷ added append_v002 (ver 260512 0 0)
    ∷ []

abbrev pub raft_client : List (FeatureChange RaftFeature)
raft_client =
    added append_entries (ver 0 0 120)
    ∷ added vote (ver 0 0 120)
    ∷ added_optional snapshot_v003 (ver 1 2 547)
    ∷ added snapshot_v003 (ver 1 2 769)
    ∷ added_optional transfer_leader (ver 1 2 599)
    ∷ added_optional vote_v001 (ver 1 2 777)
    ∷ added_optional snapshot_v004 (ver 1 2 818)
    ∷ added_optional append_v002 (ver 260512 0 0)
    ∷ []

unfoldable pub raft_spec : Version → Option (FeatureSpec raft)
unfolding spec_of
raft_spec version = spec_of raft raft_server raft_client version

-- The range of each version, worked out
abbrev pub peers : Version → Range
peers node =
    if lt node (ver 0 0 120)
    then (lowest, ver 0 0 120)
    else if lt node (ver 1 2 547)
    then (ver 0 0 120, ver 1 2 769)
    else if lt node (ver 1 2 769)
    then (ver 0 0 120, highest)
    else (ver 1 2 547, highest)

raft_history : Version → FeatureSpec raft
raft_history b = record {
  version = b;
  server_features = history raft (λ f. none) raft_server;
  client_features = history raft (λ f. none) raft_client;
}

raft_spec-raft_history : (b : Version) → raft_spec b ≡ some (raft_history b)
unfolding raft_spec raft_history
raft_spec-raft_history b = refl

module _ (b node : Version) (released : lt node highest ≡ true) where
  regime :
      (e0 : Bool) (e1 : Bool) (e2 : Bool)
      → lt node (ver 0 0 120) ≡ e0
      → lt node (ver 1 2 547) ≡ e1
      → lt node (ver 1 2 769) ≡ e2
      → (e0 ≡ true → e1 ≡ true)
      → (e1 ≡ true → e2 ≡ true)
      → compatible_peer_range raft (raft_history b) node ≡ some (peers node)
  unfolding raft_history history compatible_peer_range
  regime true true true h0 h1 h2 up up' = rw (released, h0, h1, h2)
  regime false true true h0 h1 h2 up up' = rw (released, h0, h1, h2)
  regime false false true h0 h1 h2 up up' = rw (released, h0, h1, h2)
  regime false false false h0 h1 h2 up up' = rw (released, h0, h1, h2)
  regime true false e2 h0 h1 h2 up up' = let wrong = up refl in cc
  regime e0 true false h0 h1 h2 up up' = let wrong = up' refl in cc

earlier : (node a c : Version) → lt node a ≡ true → lt a c ≡ true → lt node c ≡ true
earlier node a c h k = ground arith

-- For every version of a raft node below the highest one, by the history of the features: before 0.0.120 it can work with
-- peers before 0.0.120 only; before 1.2.547 (which provides snapshots V003) with those from 0.0.120 to before 1.2.769;
-- before 1.2.769 (which requires them) with those from 0.0.120 on; and later with those from 1.2.547 on.
pub compatible_peer_range-raft_spec :
    (b node : Version) (spec : FeatureSpec raft)
    → raft_spec b ≡ some spec
    → lt node highest ≡ true
    → compatible_peer_range raft spec node ≡ some (peers node)
compatible_peer_range-raft_spec b node spec h released =
    let made = raft_spec-raft_history b in
    let same : raft_history b ≡ spec = cc in
    subst (λ s. compatible_peer_range raft s node ≡ some (peers node)) same
      (regime b node released _ _ _ refl refl refl
        (λ e. earlier node (ver 0 0 120) (ver 1 2 547) e refl)
        λ e. earlier node (ver 1 2 547) (ver 1 2 769) e refl)
