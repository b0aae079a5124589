-- ===== src/Versions/Grpc.antt =====
-- `GrpcFeature` of grpc_feat.rs and `GrpcSpec::new` of grpc_spec.rs, and the oldest peers of every recent release.
use databend_meta.Common.{ℕ, ◌≡◌, refl, ap, subst, true, Option, none, some, List, [], ◌∷◌}
use databend_meta.Versions.Version.{Version, highest, lt, le}
use databend_meta.Versions.Spec.{
  FeatureSet, FeatureSpec, first_of, min_compatible_server_version, min_compatible_client_version,
}
use databend_meta.Versions.Settled.{all_settled, compatible_ranges-settled}
use databend_meta.Versions.History.{FeatureChange, added, removed, ver, by_place, history, spec_of}

pub data GrpcFeature : Type 0 where
  kv_api kv_api_get_kv kv_api_m_get_kv kv_api_list_kv kv_read_v1 transaction transaction_reply_error
        transaction_put_with_ttl transaction_prev_value transaction_request_prev_value_flag
        transaction_condition_keys_prefix transaction_operations operation_as_is export export_v1
        watch watch_initial_flush watch_response_is_init member_list get_cluster_status
        get_client_info put_response_current fetch_add_u64 expire_in_millis put_sequential
        proposed_at_ms fetch_increase_u64 kv_list kv_get_many kv_transaction
        kv_transaction_put_match_seq raft_reply_error :
      GrpcFeature

abbrev place : GrpcFeature → ℕ
place kv_api = 0
place kv_api_get_kv = 1
place kv_api_m_get_kv = 2
place kv_api_list_kv = 3
place kv_read_v1 = 4
place transaction = 5
place transaction_reply_error = 6
place transaction_put_with_ttl = 7
place transaction_prev_value = 8
place transaction_request_prev_value_flag = 9
place transaction_condition_keys_prefix = 10
place transaction_operations = 11
place operation_as_is = 12
place export = 13
place export_v1 = 14
place watch = 15
place watch_initial_flush = 16
place watch_response_is_init = 17
place member_list = 18
place get_cluster_status = 19
place get_client_info = 20
place put_response_current = 21
place fetch_add_u64 = 22
place expire_in_millis = 23
place put_sequential = 24
place proposed_at_ms = 25
place fetch_increase_u64 = 26
place kv_list = 27
place kv_get_many = 28
place kv_transaction = 29
place kv_transaction_put_match_seq = 30
place raft_reply_error = 31

abbrev pub grpc : FeatureSet
grpc =
    by_place
      (kv_api ∷ kv_api_get_kv ∷ kv_api_m_get_kv ∷ kv_api_list_kv ∷ kv_read_v1 ∷ transaction
        ∷ transaction_reply_error ∷ transaction_put_with_ttl ∷ transaction_prev_value
        ∷ transaction_request_prev_value_flag ∷ transaction_condition_keys_prefix
        ∷ transaction_operations ∷ operation_as_is ∷ export ∷ export_v1 ∷ watch
        ∷ watch_initial_flush ∷ watch_response_is_init ∷ member_list ∷ get_cluster_status
        ∷ get_client_info ∷ put_response_current ∷ fetch_add_u64 ∷ expire_in_millis ∷ put_sequential
        ∷ proposed_at_ms ∷ fetch_increase_u64 ∷ kv_list ∷ kv_get_many ∷ kv_transaction
        ∷ kv_transaction_put_match_seq ∷ raft_reply_error ∷ [])
      place

abbrev pub grpc_server : List (FeatureChange GrpcFeature)
grpc_server =
    added operation_as_is (ver 1 2 163)
    ∷ added kv_api (ver 1 2 163)
    ∷ added raft_reply_error (ver 1 2 163)
    ∷ added kv_api_get_kv (ver 1 2 163)
    ∷ added kv_api_m_get_kv (ver 1 2 163)
    ∷ added kv_api_list_kv (ver 1 2 163)
    ∷ added kv_read_v1 (ver 1 2 163)
    ∷ added transaction_request_prev_value_flag (ver 1 2 163)
    ∷ added transaction (ver 1 2 258)
    ∷ added transaction_reply_error (ver 1 2 258)
    ∷ added transaction_put_with_ttl (ver 1 2 258)
    ∷ added export (ver 1 2 259)
    ∷ added watch (ver 1 2 259)
    ∷ added member_list (ver 1 2 259)
    ∷ added get_cluster_status (ver 1 2 259)
    ∷ added get_client_info (ver 1 2 259)
    ∷ added transaction_prev_value (ver 1 2 304)
    ∷ added export_v1 (ver 1 2 315)
    ∷ removed kv_api_get_kv (ver 1 2 663)
    ∷ removed kv_api_m_get_kv (ver 1 2 663)
    ∷ removed kv_api_list_kv (ver 1 2 663)
    ∷ added transaction_condition_keys_prefix (ver 1 2 674)
    ∷ added transaction_operations (ver 1 2 676)
    ∷ added watch_initial_flush (ver 1 2 677)
    ∷ added watch_response_is_init (ver 1 2 736)
    ∷ removed transaction_reply_error (ver 1 2 755)
    ∷ added put_response_current (ver 1 2 756)
    ∷ added fetch_add_u64 (ver 1 2 764)
    ∷ added expire_in_millis (ver 1 2 770)
    ∷ added put_sequential (ver 1 2 770)
    ∷ added proposed_at_ms (ver 1 2 823)
    ∷ added fetch_increase_u64 (ver 1 2 828)
    ∷ added kv_list (ver 1 2 869)
    ∷ added kv_get_many (ver 1 2 869)
    ∷ added kv_transaction (ver 260217 0 0)
    ∷ added kv_transaction_put_match_seq (ver 260217 0 0)
    ∷ []

abbrev pub grpc_client : List (FeatureChange GrpcFeature)
grpc_client =
    added operation_as_is (ver 1 2 163)
    ∷ added kv_api (ver 1 2 163)
    ∷ added raft_reply_error (ver 1 2 163)
    ∷ added kv_api_get_kv (ver 1 2 163)
    ∷ added kv_api_m_get_kv (ver 1 2 163)
    ∷ added kv_api_list_kv (ver 1 2 163)
    ∷ added transaction_request_prev_value_flag (ver 1 2 163)
    ∷ added kv_read_v1 (ver 1 2 176)
    ∷ added transaction_reply_error (ver 1 2 258)
    ∷ added transaction (ver 1 2 259)
    ∷ added export (ver 1 2 259)
    ∷ added watch (ver 1 2 259)
    ∷ added member_list (ver 1 2 259)
    ∷ added get_cluster_status (ver 1 2 259)
    ∷ added get_client_info (ver 1 2 259)
    ∷ removed kv_api_get_kv (ver 1 2 287)
    ∷ removed kv_api_m_get_kv (ver 1 2 287)
    ∷ removed kv_api_list_kv (ver 1 2 287)
    ∷ added transaction_put_with_ttl (ver 1 2 361)
    ∷ removed operation_as_is (ver 1 2 663)
    ∷ removed transaction_reply_error (ver 1 2 676)
    ∷ added watch_initial_flush (ver 1 2 726)
    ∷ added watch_response_is_init (ver 1 2 726)
    ∷ added transaction_condition_keys_prefix (ver 1 2 726)
    ∷ added transaction_operations (ver 1 2 726)
    ∷ added put_response_current (ver 1 2 756)
    ∷ added fetch_add_u64 (ver 1 2 821)
    ∷ removed kv_api (ver 1 2 823)
    ∷ added expire_in_millis (ver 260205 0 0)
    ∷ added put_sequential (ver 260205 0 0)
    ∷ added kv_get_many (ver 260214 0 0)
    ∷ added transaction_prev_value (ver 260214 0 0)
    ∷ removed transaction_request_prev_value_flag (ver 260214 0 0)
    ∷ added kv_transaction (ver 260217 0 0)
    ∷ added kv_transaction_put_match_seq (ver 260217 0 0)
    ∷ added export_v1 highest
    ∷ added proposed_at_ms highest
    ∷ added fetch_increase_u64 highest
    ∷ added kv_list highest
    ∷ []

unfoldable pub grpc_spec : Version → Option (FeatureSpec grpc)
unfolding spec_of
grpc_spec version = spec_of grpc grpc_server grpc_client version

grpc_history : Version → FeatureSpec grpc
grpc_history b = record {
  version = b;
  server_features = history grpc (λ f. none) grpc_server;
  client_features = history grpc (λ f. none) grpc_client;
}

grpc_spec-grpc_history : (b : Version) → grpc_spec b ≡ some (grpc_history b)
unfolding grpc_spec grpc_history
grpc_spec-grpc_history b = refl

settled : (b : Version) → all_settled grpc (grpc_history b) (ver 260217 0 0) grpc.all ≡ true
unfolding grpc_history history all_settled
settled b = refl

-- For every release from 260217.0.0 on, below the highest version: the oldest server that its clients can use is 260217.0.0,
-- and the oldest client that its servers can serve is 1.2.676.
pub min_compatible_versions-grpc_spec :
    (b : Version) (spec : FeatureSpec grpc)
    → grpc_spec b ≡ some spec
    → le (ver 260217 0 0) b ≡ true
    → lt b highest ≡ true
    → (min_compatible_server_version grpc spec ≡ some (ver 260217 0 0))
      × (min_compatible_client_version grpc spec ≡ some (ver 1 2 676))
unfolding grpc_history history min_compatible_server_version min_compatible_client_version
min_compatible_versions-grpc_spec b spec h recent released =
    let made = grpc_spec-grpc_history b in
    let same : grpc_history b ≡ spec = cc in
    let (server, client) =
      compatible_ranges-settled (ver 260217 0 0) b recent released grpc (grpc_history b)
        (settled b) in
    subst
      (λ s.
        (min_compatible_server_version grpc s ≡ some (ver 260217 0 0))
        × (min_compatible_client_version grpc s ≡ some (ver 1 2 676)))
      same (ap (first_of grpc) server, ap (first_of grpc) client)
