-- ===== src/Service/Relay.antt =====
-- A request that is forwarded comes back as it would from the node that it was forwarded to.
use databend_meta.Common.{
  ℕ, suc, ◌-◌, ◌≡◌, refl, ap, ◌∙◌, Option, none, some, arith, ltb, lt→ltb, true, if◌then◌else◌,
  Text,
}
use databend_meta.Types.Node.{Endpoint}
use databend_meta.Service.Errors.{
  Returned, ok, err, ForwardToLeader, ForwardRequestError, api_error, request_error, rpc_remote,
  no_forward, req_network, req_data,
}
use databend_meta.Service.Forward.{
  ForwardRequest, next, decreased, quota_reached, NodeView, Run, handle_as, assume_leader, round,
  forward_next, after_forward, forward_loop, handle_forwardable_request, parsed, address_of,
}
use databend_meta.Service.Remote.{serve_forward, forward}

-- An error keeps what it is on its way through the API.
pub request_error-api_error :
    (describe : ForwardToLeader → Text) (e : ForwardRequestError)
    → request_error describe (rpc_remote (api_error e)) ≡ e
unfolding request_error api_error
request_error-api_error describe (no_forward e) = refl
request_error-api_error describe (req_network e) = refl
request_error-api_error describe (req_data e) = refl

module _ {Body : Type 0} where
  abbrev pub request : ℕ → Body → ForwardRequest Body
  request quota body = record { forward_to_leader = quota; body = body }

  pub next-suc : (q : ℕ) (body : Body) → next (request (suc q) body) ≡ ok (request q body)
  unfolding next
  next-suc q body =
      let less : ltb 0 (suc q) ≡ true = lt→ltb 0 (suc q) (omega arith) in
      let one : suc q - 1 ≡ q = omega arith in
      ap (λ b. decreased (if b then ok tt else err quota_reached) (request (suc q) body)) less
      ∙ ap (λ n. ok (request n body)) one

module _ {Reply : Type 0} where
  -- The result at another node, which knows the leader by that endpoint
  abbrev pub relayed :
      Option Endpoint
      → Returned ForwardRequestError (Option Endpoint × Reply)
      → Returned ForwardRequestError (Option Endpoint × Reply)
  relayed endpoint (ok (e, reply)) = ok (endpoint, reply)
  relayed endpoint (err e) = err e

module _ {Body Reply : Type 0} (describe : ForwardToLeader → Text) (v : NodeView Body Reply) where
  after_forward-answered :
      (l : ℕ) (again : Option (Run Body Reply)) (endpoint : Endpoint)
      (r : Returned ForwardRequestError (Option Endpoint × Reply))
      → (after_forward describe v 0 1000 l again (forward endpoint (ok (serve_forward r)))).result
        ≡ relayed (parsed describe v (address_of describe v (v.get_node 0 l))) r
  unfolding after_forward forward serve_forward
  after_forward-answered l none endpoint (ok (e, reply)) = refl
  after_forward-answered l (some run) endpoint (ok (e, reply)) = refl
  after_forward-answered l none endpoint (err e) =
      ap (λ x. err x) (request_error-api_error describe e)
  after_forward-answered l (some run) endpoint (err e) =
      ap (λ x. err x) (request_error-api_error describe e)

  -- Where a node is not the leader and knows another node `l` as it, a request that may be forwarded reaches node `l`, whose view is `w`, and its
  -- answer comes back: then the request returns the reply of that node with the endpoint that the first node has of `l`, or the
  -- very error of that node, of whatever kind.
  pub handle_forwardable_request-relayed :
      (w : NodeView Body Reply) (l q : ℕ) (body : Body) (endpoint : Endpoint)
      → handle_as describe v (assume_leader describe v 0) 0 body
        ≡ err (record { leader_id = some l })
      → v.forward 0 l (request q body)
        ≡ forward endpoint
            (ok (serve_forward (handle_forwardable_request describe w (request q body)).result))
      → (handle_forwardable_request describe v (request (suc q) body)).result
        ≡ relayed
            (parsed describe v (address_of describe v (v.get_node 0 l)))
            (handle_forwardable_request describe w (request q body)).result
  unfolding handle_forwardable_request
  handle_forwardable_request-relayed w l q body endpoint hint answer =
      let r = (handle_forwardable_request describe w (request q body)).result in
      let again = some (forward_loop describe v 18 1 1000 (request (suc q) body)) in
      ap (λ o. (round describe v 0 1000 again (request (suc q) body) o).result) hint
      ∙ ap (λ n. (forward_next describe v 0 1000 l again n).result) (next-suc q body)
      ∙ ap (λ a. (after_forward describe v 0 1000 l again a).result) answer
      ∙ after_forward-answered l again endpoint r
