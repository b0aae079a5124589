-- ===== src/Service/Remote.antt =====
-- The far end of a forwarded request: `forward` of crates/server/service/src/meta_service/raft_service_impl.rs, and what
-- `MetaForwarder::forward` of meta_service/forwarder.rs makes of the answer. The JSON between them is read back as it was written.
use databend_meta.Common.{Option}
use databend_meta.Types.Node.{Endpoint}
use databend_meta.Service.Errors.{
  Returned, ok, err, MetaNetworkError, MetaApiError, ForwardRpcError, rpc_network, rpc_remote,
  ForwardRequestError, api_error,
}

module _ {Reply : Type 0} where
  -- The handler: the endpoint is dropped, and an error is turned into one of the API.
  unfoldable pub serve_forward :
      Returned ForwardRequestError (Option Endpoint × Reply) → Returned MetaApiError Reply
  unfolding api_error
  serve_forward (ok (endpoint, reply)) = ok reply
  serve_forward (err e) = err (api_error e)

  abbrev pub answered :
      Endpoint → Returned MetaApiError Reply → Returned ForwardRpcError (Endpoint × Reply)
  answered endpoint (ok reply) = ok (endpoint, reply)
  answered endpoint (err e) = err (rpc_remote e)

  -- An error of the network, or the answer with the endpoint that gave it
  unfoldable pub forward :
      Endpoint
      → Returned MetaNetworkError (Returned MetaApiError Reply)
      → Returned ForwardRpcError (Endpoint × Reply)
  forward endpoint (ok answer) = answered endpoint answer
  forward endpoint (err e) = err (rpc_network e)
