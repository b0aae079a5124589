-- ===== src/Service/Errors.antt =====
-- The errors of a forwarded request: crates/server/types/src/errors/meta_api_errors.rs and meta_network_errors.rs and, in
-- crates/server/service/src, meta_service/meta_operation_error.rs, meta_service/forward_rpc_error.rs and
-- meta_node/request_handler_error.rs. The content of an error is its message.
use databend_meta.Common.{ℕ, Bool, true, false, Option, Text}

pub data Returned (E A : Type 0) : Type 0 where
  ok : A → Returned E A
  err : E → Returned E A

abbrev pub map_err : {E F A : Type 0} → (E → F) → Returned E A → Returned F A
map_err f (ok a) = ok a
map_err f (err e) = err (f e)

-- `ForwardToLeader` of openraft; the leader's node is not read.
pub record ForwardToLeader : Type 0 where
  pub leader_id : Option ℕ

pub data ChangeMembershipError : Type 0 where
  in_progress empty_membership learner_not_found : Text → ChangeMembershipError

pub data MetaDataError : Type 0 where
  write_error : Text → MetaDataError
  change_membership_error : ChangeMembershipError → MetaDataError
  read_error : Text → MetaDataError

pub data MetaNetworkError : Type 0 where
  connection_error get_node_addr_error dns_parse_error tls_config_error bad_address_format
        invalid_argument invalid_reply :
      Text → MetaNetworkError

-- `MetaOperationError`
pub data MetaOperationError : Type 0 where
  to_leader : ForwardToLeader → MetaOperationError
  write : Text → MetaOperationError
  change_membership : ChangeMembershipError → MetaOperationError
  read : Text → MetaOperationError

pub data MetaApiError : Type 0 where
  forward_to_leader : ForwardToLeader → MetaApiError
  can_not_forward : Text → MetaApiError
  network_error : MetaNetworkError → MetaApiError
  data_error : MetaDataError → MetaApiError
  remote_error : MetaDataError → MetaApiError

pub data ForwardRpcError : Type 0 where
  rpc_network : MetaNetworkError → ForwardRpcError
  rpc_remote : MetaApiError → ForwardRpcError

pub data ForwardRequestError : Type 0 where
  no_forward : Text → ForwardRequestError
  req_network : MetaNetworkError → ForwardRequestError
  req_data : MetaDataError → ForwardRequestError

-- `MetaOperationError::peel`: an error of the data, or the leader to forward to.
unfoldable pub peel : MetaOperationError → Returned ForwardToLeader MetaDataError
peel (to_leader ftl) = err ftl
peel (write e) = ok (write_error e)
peel (change_membership e) = ok (change_membership_error e)
peel (read e) = ok (read_error e)

-- `From<ForwardRequestError> for MetaAPIError`
unfoldable pub api_error : ForwardRequestError → MetaApiError
api_error (no_forward e) = can_not_forward e
api_error (req_network e) = network_error e
api_error (req_data e) = data_error e

-- `From<ForwardRPCError> for ForwardRequestError`; `describe` is `Display` of openraft's error.
unfoldable pub request_error : (ForwardToLeader → Text) → ForwardRpcError → ForwardRequestError
request_error describe (rpc_network e) = req_network e
request_error describe (rpc_remote (data_error e)) = req_data e
request_error describe (rpc_remote (remote_error e)) = req_data e
request_error describe (rpc_remote (network_error e)) = req_network e
request_error describe (rpc_remote (can_not_forward e)) = no_forward e
request_error describe (rpc_remote (forward_to_leader e)) = no_forward (describe e)

abbrev is_in_progress : ChangeMembershipError → Bool
is_in_progress (in_progress e) = true
is_in_progress (empty_membership e) = false
is_in_progress (learner_not_found e) = false

abbrev is_change : MetaDataError → Bool
is_change (write_error e) = false
is_change (change_membership_error e) = true
is_change (read_error e) = false

abbrev is_waiting : MetaDataError → Bool
is_waiting (write_error e) = false
is_waiting (change_membership_error e) = is_in_progress e
is_waiting (read_error e) = false

-- `MetaAPIError::is_retryable`
unfoldable pub is_retryable : MetaApiError → Bool
is_retryable (forward_to_leader e) = true
is_retryable (can_not_forward e) = true
is_retryable (network_error e) = true
is_retryable (data_error e) = is_change e
is_retryable (remote_error e) = is_waiting e
