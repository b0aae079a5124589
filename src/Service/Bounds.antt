-- ===== src/Service/Bounds.antt =====
-- How often a request is forwarded by the loop of meta_node.rs, and how long the loop sleeps.
use databend_meta.Common.{
  ℕ, zero, suc, ◌+◌, ◌-◌, ◌*◌, min, ◌≤◌, ◌<◌, ◌≡◌, refl, ap, Bool-cases, inl, inr, Option, none,
  some, List, [], ◌∷◌, Text, arith, ltb, ltb→lt, if◌then◌else◌, length, All,
}
use databend_meta.Service.Errors.{
  Returned, ok, err, ForwardToLeader, MetaDataError, ForwardRpcError, rpc_network, rpc_remote,
  ForwardRequestError,
}
use databend_meta.Types.Node.{Endpoint}
use databend_meta.Service.Forward.{
  ForwardRequest, next, NodeView, Run, round, forward_to, forward_next, after_forward, forward_loop,
  handle_forwardable_request, decreased, stop, send, quota_reached,
}

pub total : List ℕ → ℕ
total [] = 0
total (n ∷ ns) = n + total ns

module _ {Body : Type 0} where
  -- A request with one forward less than `req`
  abbrev pub Allowed : ForwardRequest Body → ForwardRequest Body → Type 0
  Allowed req r =
      (0 < req.forward_to_leader)
      × (r ≡ record req { forward_to_leader = req.forward_to_leader - 1 })

  pub next-Allowed : (req r : ForwardRequest Body) → next req ≡ ok r → Allowed req r
  unfolding next
  next-Allowed req r e = elim (Bool-cases (ltb 0 req.forward_to_leader)) [
    | inl h ↦
        let eq = ap (λ b. decreased (if b then ok tt else err quota_reached) req) h in
        let found : r ≡ record req { forward_to_leader = req.forward_to_leader - 1 } = cc in
        (ltb→lt 0 req.forward_to_leader h, found)
    | inr h ↦
        absurd (let eq = ap (λ b. decreased (if b then ok tt else err quota_reached) req) h in cc)
  ]

module _ {Body Reply : Type 0} where
  -- At most `n` requests are sent, with a second of sleep between them.
  pub record Bounded (n : ℕ) (req : ForwardRequest Body) (run : Run Body Reply) : Type 0 where
    pub few : length run.sent ≤ n
    pub short : total run.slept + 1000 ≤ 1000 * n
    pub allowed : All (λ (m : ℕ × ForwardRequest Body). Allowed req m.1) run.sent

module _ {Body Reply : Type 0} (describe : ForwardToLeader → Text) (v : NodeView Body Reply) where
  abbrev Rest : ℕ → ForwardRequest Body → Option (Run Body Reply) → Type 0
  Rest n req none = Unit
  Rest n req (some run) = Bounded n req run

  stop-Bounded :
      (n : ℕ) (req : ForwardRequest Body)
      (r : Returned ForwardRequestError (Option Endpoint × Reply))
      → Bounded (suc n) req (stop describe v r)
  unfolding total
  stop-Bounded n req r = record { few = omega arith; short = omega arith; allowed = tt }

  sent-Bounded :
      (n : ℕ) (l : ℕ) (req r : ForwardRequest Body)
      (res : Returned ForwardRequestError (Option Endpoint × Reply))
      → Allowed req r
      → Bounded (suc n) req (send describe v l r (stop describe v res))
  unfolding total
  sent-Bounded n l req r res a = record {
    few = omega arith;
    short = omega arith;
    allowed = (a, tt);
  }

  after_forward-Bounded :
      (t slp l n : ℕ) (again : Option (Run Body Reply)) (req r : ForwardRequest Body)
      (answer : Returned ForwardRpcError (Endpoint × Reply))
      → Allowed req r
      → slp ≤ 1000
      → Rest n req again
      → Bounded (suc n) req (send describe v l r (after_forward describe v t slp l again answer))
  unfolding total after_forward
  after_forward-Bounded t slp l n none req r (ok (endpoint, reply)) a s h =
      sent-Bounded n l req r _ a
  after_forward-Bounded t slp l n (some run) req r (ok (endpoint, reply)) a s h =
      sent-Bounded n l req r _ a
  after_forward-Bounded t slp l n none req r (err (rpc_remote e)) a s h = sent-Bounded n l req r _ a
  after_forward-Bounded t slp l n (some run) req r (err (rpc_remote e)) a s h =
      sent-Bounded n l req r _ a
  after_forward-Bounded t slp l n none req r (err (rpc_network e)) a s h =
      sent-Bounded n l req r _ a
  after_forward-Bounded t slp l n (some run) req r (err (rpc_network e)) a s h = record {
    few = let few = h.few in omega arith;
    short = let short = h.short in omega arith;
    allowed = (a, h.allowed);
  }

  forward_next-Bounded :
      (t slp l n : ℕ) (again : Option (Run Body Reply)) (req : ForwardRequest Body)
      (o : Returned Text (ForwardRequest Body))
      → ((r : ForwardRequest Body) → o ≡ ok r → Allowed req r)
      → slp ≤ 1000
      → Rest n req again
      → Bounded (suc n) req (forward_next describe v t slp l again o)
  unfolding forward_next
  forward_next-Bounded t slp l n again req (ok r) a s h =
      after_forward-Bounded t slp l n again req r (v.forward t l r) (a r refl) s h
  forward_next-Bounded t slp l n again req (err e) a s h = stop-Bounded n req _

  forward_to-Bounded :
      (t slp n : ℕ) (l : Option ℕ) (again : Option (Run Body Reply)) (req : ForwardRequest Body)
      → slp ≤ 1000
      → Rest n req again
      → Bounded (suc n) req (forward_to describe v t slp l again req)
  unfolding forward_to
  forward_to-Bounded t slp n none again req s h = stop-Bounded n req _
  forward_to-Bounded t slp n (some l) again req s h =
      forward_next-Bounded t slp l n again req (next req) (next-Allowed req) s h

  round-Bounded :
      (t slp n : ℕ) (again : Option (Run Body Reply)) (req : ForwardRequest Body)
      (o : Returned ForwardToLeader (Returned MetaDataError Reply))
      → slp ≤ 1000
      → Rest n req again
      → Bounded (suc n) req (round describe v t slp again req o)
  unfolding round
  round-Bounded t slp n again req (ok (ok reply)) s h = stop-Bounded n req _
  round-Bounded t slp n again req (ok (err e)) s h = stop-Bounded n req _
  round-Bounded t slp n again req (err ftl) s h =
      forward_to-Bounded t slp n ftl.leader_id again req s h

  forward_loop-Bounded :
      (n t slp : ℕ) (req : ForwardRequest Body)
      → slp ≤ 1000
      → Bounded (suc n) req (forward_loop describe v n t slp req)
  unfolding forward_loop
  forward_loop-Bounded zero t slp req s = round-Bounded t slp 0 none req _ s tt
  forward_loop-Bounded (suc n) t slp req s =
      round-Bounded t slp (suc n)
        (some (forward_loop describe v n (t + 1) (min (slp * 2) 1000) req)) req _ s
        (forward_loop-Bounded n (t + 1) (min (slp * 2) 1000) req (omega arith))

  -- Whatever a node observes: a request is sent to other nodes at most twenty times, each time with one forward less than it came with and
  -- only when it came with one, and the node sleeps no longer than nineteen seconds before it answers.
  pub handle_forwardable_request-Bounded :
      (req : ForwardRequest Body)
      → (length (handle_forwardable_request describe v req).sent ≤ 20)
        × (All
              (λ (m : ℕ × ForwardRequest Body). Allowed req m.1)
              (handle_forwardable_request describe v req).sent
            × (total (handle_forwardable_request describe v req).slept ≤ 19000))
  unfolding handle_forwardable_request
  handle_forwardable_request-Bounded req =
      let b = forward_loop-Bounded 19 0 1000 req (omega arith) in
      let few = b.few in let short = b.short in (few, (b.allowed, omega arith))
