-- ===== src/Service/Forward.antt =====
-- `handle_forwardable_request` of crates/server/service/src/meta_node/meta_node.rs, with ForwardRequest of message.rs. What a
-- node observes in its attempts is a parameter: attempt after attempt, the leader of its raft metrics, the outcome of a request
-- handled locally, the nodes of its state machine, and the outcome of a request sent to another node.
use databend_meta.Common.{
  ℕ, zero, suc, ◌+◌, ◌-◌, ◌*◌, min, Bool, Option, none, some, List, [], ◌∷◌, Text, ltb, ◌==◌,
  option_eq, if◌then◌else◌,
}
use databend_meta.Types.Node.{Node, Endpoint}
use databend_meta.Types.Address.{parse}
use databend_meta.Service.Errors.{
  Returned, ok, err, ForwardToLeader, MetaDataError, MetaOperationError, ForwardRpcError,
  rpc_network, rpc_remote, ForwardRequestError, no_forward, req_data, peel, request_error,
}

-- "max number of forward reached"
abbrev pub quota_reached : Text
quota_reached =
    109 ∷ 97 ∷ 120 ∷ 32 ∷ 110 ∷ 117 ∷ 109 ∷ 98 ∷ 101 ∷ 114 ∷ 32 ∷ 111 ∷ 102 ∷ 32 ∷ 102 ∷ 111 ∷ 114
    ∷ 119 ∷ 97 ∷ 114 ∷ 100 ∷ 32 ∷ 114 ∷ 101 ∷ 97 ∷ 99 ∷ 104 ∷ 101 ∷ 100 ∷ []

-- "need to forward but no known leader"
abbrev pub no_known_leader : Text
no_known_leader =
    110 ∷ 101 ∷ 101 ∷ 100 ∷ 32 ∷ 116 ∷ 111 ∷ 32 ∷ 102 ∷ 111 ∷ 114 ∷ 119 ∷ 97 ∷ 114 ∷ 100 ∷ 32 ∷ 98
    ∷ 117 ∷ 116 ∷ 32 ∷ 110 ∷ 111 ∷ 32 ∷ 107 ∷ 110 ∷ 111 ∷ 119 ∷ 110 ∷ 32 ∷ 108 ∷ 101 ∷ 97 ∷ 100
    ∷ 101 ∷ 114 ∷ []

pub record ForwardRequest (Body : Type 0) : Type 0 where
  pub forward_to_leader : ℕ
  pub body : Body

module _ {Body : Type 0} where
  unfoldable pub can_forward : ForwardRequest Body → Bool
  can_forward req = ltb 0 req.forward_to_leader

  unfoldable pub decr_forward : ForwardRequest Body → ForwardRequest Body
  decr_forward req = record req { forward_to_leader = req.forward_to_leader - 1 }

  unfoldable pub ensure_forwardable : ForwardRequest Body → Returned Text (Unit {0})
  unfolding can_forward
  ensure_forwardable req = if can_forward req then ok tt else err quota_reached

  abbrev pub decreased :
      Returned Text (Unit {0}) → ForwardRequest Body → Returned Text (ForwardRequest Body)
  unfolding decr_forward
  decreased (ok u) req = ok (decr_forward req)
  decreased (err e) req = err e

  -- `ForwardRequest::next`
  unfoldable pub next : ForwardRequest Body → Returned Text (ForwardRequest Body)
  unfolding ensure_forwardable decr_forward
  next req = decreased (ensure_forwardable req) req

-- What a node observes, attempt after attempt.
pub record NodeView (Body Reply : Type 0) : Type 0 where
  pub id : ℕ
  -- `get_leader`; `none` where the metrics of raft are closed
  pub get_leader : ℕ → Option (Option ℕ)
  -- `MetaLeader::handle`
  pub handle : ℕ → Body → Returned MetaOperationError Reply
  pub get_node : ℕ → ℕ → Option Node
  -- `MetaForwarder::forward`
  pub forward : ℕ → ℕ → ForwardRequest Body → Returned ForwardRpcError (Endpoint × Reply)

-- The requests that are sent, each with its target, the times slept, in milliseconds, and what is returned.
pub record Run (Body Reply : Type 0) : Type 0 where
  pub sent : List (ℕ × ForwardRequest Body)
  pub slept : List ℕ
  pub result : Returned ForwardRequestError (Option Endpoint × Reply)

module _ {Body Reply : Type 0} (describe : ForwardToLeader → Text) (v : NodeView Body Reply) where
  abbrev pub led_by : Option (Option ℕ) → Returned ForwardToLeader (Unit {0})
  led_by none = err (record { leader_id = none })
  led_by (some leader_id) =
      if option_eq ◌==◌ leader_id (some v.id) then ok tt else err (record { leader_id = leader_id })

  unfoldable pub assume_leader : ℕ → Returned ForwardToLeader (Unit {0})
  assume_leader t = led_by (v.get_leader t)

  abbrev pub peeled :
      Returned ForwardToLeader MetaDataError
      → Returned ForwardToLeader (Returned MetaDataError Reply)
  peeled (ok data_err) = ok (err data_err)
  peeled (err ftl) = err ftl

  unfoldable pub handled :
      Returned MetaOperationError Reply → Returned ForwardToLeader (Returned MetaDataError Reply)
  unfolding peel
  handled (ok reply) = ok (ok reply)
  handled (err e) = peeled (peel e)

  unfoldable pub handle_as :
      Returned ForwardToLeader (Unit {0})
      → ℕ
      → Body
      → Returned ForwardToLeader (Returned MetaDataError Reply)
  unfolding handled
  handle_as (ok leader) t body = handled (v.handle t body)
  handle_as (err ftl) t body = err ftl

  abbrev pub address_of : Option Node → Option Text
  address_of none = none
  address_of (some node) = node.grpc_api_advertise_address

  abbrev pub parsed : Option Text → Option Endpoint
  unfolding parse
  parsed none = none
  parsed (some address) = parse address

  abbrev pub stop : Returned ForwardRequestError (Option Endpoint × Reply) → Run Body Reply
  stop r = record { sent = []; slept = []; result = r }

  abbrev pub sleep_and : ℕ → Run Body Reply → Run Body Reply
  sleep_and slp run = record run { slept = slp ∷ run.slept }

  unfoldable pub after_forward :
      ℕ
      → ℕ
      → ℕ
      → Option (Run Body Reply)
      → Returned ForwardRpcError (Endpoint × Reply)
      → Run Body Reply
  unfolding parse request_error
  after_forward t slp leader_id again (ok (endpoint, reply)) =
      stop (ok (parsed (address_of (v.get_node t leader_id)), reply))
  after_forward t slp leader_id none (err (rpc_network e)) =
      stop (err (request_error describe (rpc_network e)))
  after_forward t slp leader_id (some again) (err (rpc_network e)) = sleep_and slp again
  after_forward t slp leader_id again (err (rpc_remote e)) =
      stop (err (request_error describe (rpc_remote e)))

  abbrev pub send : ℕ → ForwardRequest Body → Run Body Reply → Run Body Reply
  send leader_id req run = record run { sent = (leader_id, req) ∷ run.sent }

  unfoldable pub forward_next :
      ℕ → ℕ → ℕ → Option (Run Body Reply) → Returned Text (ForwardRequest Body) → Run Body Reply
  unfolding after_forward
  forward_next t slp leader_id again (ok req) =
      send leader_id req (after_forward t slp leader_id again (v.forward t leader_id req))
  forward_next t slp leader_id again (err e) = stop (err (no_forward e))

  unfoldable pub forward_to :
      ℕ → ℕ → Option ℕ → Option (Run Body Reply) → ForwardRequest Body → Run Body Reply
  unfolding forward_next next
  forward_to t slp none again req = stop (err (no_forward no_known_leader))
  forward_to t slp (some leader_id) again req = forward_next t slp leader_id again (next req)

  -- One round of the loop, after the request was handled locally or a leader was named; `again` is the rest of the loop, where a
  -- retry is left.
  unfoldable pub round :
      ℕ
      → ℕ
      → Option (Run Body Reply)
      → ForwardRequest Body
      → Returned ForwardToLeader (Returned MetaDataError Reply)
      → Run Body Reply
  unfolding forward_to
  round t slp again req (ok (ok reply)) = stop (ok (none, reply))
  round t slp again req (ok (err e)) = stop (err (req_data e))
  round t slp again req (err ftl) = forward_to t slp ftl.leader_id again req

  -- The loop, from attempt `t`, with `n` retries left after the next failure.
  unfoldable pub forward_loop : ℕ → ℕ → ℕ → ForwardRequest Body → Run Body Reply
  unfolding assume_leader handle_as round
  forward_loop zero t slp req = round t slp none req (handle_as (assume_leader t) t req.body)
  forward_loop (suc n) t slp req =
      let rest = forward_loop n (t + 1) (min (slp * 2) 1000) req in
      round t slp (some rest) req (handle_as (assume_leader t) t req.body)

  -- `n_retry` is 20: the twentieth failure is returned.
  unfoldable pub handle_forwardable_request : ForwardRequest Body → Run Body Reply
  unfolding forward_loop
  handle_forwardable_request req = forward_loop 19 0 1000 req
