-- ===== src/Service/Unreachable.antt =====
-- A leader that no attempt of the loop of meta_node.rs reaches.
use databend_meta.Common.{
  ℕ, zero, suc, ◌+◌, ◌*◌, min, ◌≡◌, ap, ◌∙◌, Option, none, some, arith, Text, length,
}
use databend_meta.Service.Errors.{
  err, ForwardToLeader, MetaNetworkError, rpc_network, req_network, request_error,
}
use databend_meta.Service.Forward.{
  NodeView, Run, handle_as, assume_leader, round, send, forward_next, after_forward, forward_loop,
  handle_forwardable_request,
}
use databend_meta.Service.Relay.{request, next-suc}

module _ {Body Reply : Type 0} (describe : ForwardToLeader → Text) (v : NodeView Body Reply)
    (l q : ℕ) (body : Body) (failure : ℕ → MetaNetworkError)
    (hint : (t : ℕ)
      → handle_as describe v (assume_leader describe v t) t body
        ≡ err (record { leader_id = some l }))
    (down : (t : ℕ) → v.forward t l (request q body) ≡ err (rpc_network (failure t))) where
  one_round :
      (t slp : ℕ) (again : Option (Run Body Reply))
      → round describe v t slp again
          (request (suc q) body)
          (handle_as describe v (assume_leader describe v t) t body)
        ≡ send describe v l
            (request q body)
            (after_forward describe v t slp l again (err (rpc_network (failure t))))
  unfolding round
  one_round t slp again =
      ap (round describe v t slp again (request (suc q) body)) (hint t)
      ∙ ap (forward_next describe v t slp l again) (next-suc q body)
      ∙ ap (λ a. send describe v l (request q body) (after_forward describe v t slp l again a))
          (down t)

  forward_loop-err :
      (n t slp : ℕ)
      → ((forward_loop describe v n t slp (request (suc q) body)).result
          ≡ err (req_network (failure (n + t))))
        × (length (forward_loop describe v n t slp (request (suc q) body)).sent ≡ suc n)
  unfolding forward_loop request_error
  forward_loop-err zero t slp =
      let index : t ≡ 0 + t = omega arith in
      (
        ap (λ (run : Run Body Reply). run.result) (one_round t slp none)
            ∙ ap (λ k. err (req_network (failure k))) index,
        ap (λ (run : Run Body Reply). length run.sent) (one_round t slp none),
      )
  forward_loop-err (suc n) t slp =
      let again = forward_loop describe v n (t + 1) (min (slp * 2) 1000) (request (suc q) body) in
      let (failed, count) = forward_loop-err n (t + 1) (min (slp * 2) 1000) in
      let index : n + (t + 1) ≡ suc n + t = omega arith in
      (
        ap (λ (run : Run Body Reply). run.result) (one_round t slp (some again))
            ∙ failed
            ∙ ap (λ k. err (req_network (failure k))) index,
        ap (λ (run : Run Body Reply). length run.sent) (one_round t slp (some again))
            ∙ ap (λ k. suc k) count,
      )

  -- Where a node is not the leader and knows another node as it in each attempt, and every attempt to send a request that may be
  -- forwarded to that node fails in the network: the request is sent twenty times, and the last failure is returned.
  pub handle_forwardable_request-err :
      ((handle_forwardable_request describe v (request (suc q) body)).result
        ≡ err (req_network (failure 19)))
      × (length (handle_forwardable_request describe v (request (suc q) body)).sent ≡ 20)
  unfolding handle_forwardable_request
  handle_forwardable_request-err =
      let (failed, count) = forward_loop-err 19 0 1000 in (failed, count)
