-- ===== src/Examples/Service.antt =====
-- Node 1 forwards to node 2, which answers a number with its successor, or cannot be reached.
use databend_meta.Common.{ℕ, suc, ◌≤◌, ◌≡◌, refl, none, some, [], ◌∷◌, All, length, Text}
use databend_meta.Types.Node.{Endpoint, Node, new_node, with_grpc_advertise_address}
use databend_meta.Types.Address.{parse}
use databend_meta.Service.Errors.{
  ok, err, MetaNetworkError, connection_error, rpc_network, req_network, ForwardToLeader,
}
use databend_meta.Service.Forward.{
  ForwardRequest, NodeView, handle_forwardable_request, handle_as, assume_leader, parsed,
  address_of,
}
use databend_meta.Service.Remote.{forward, serve_forward}
use databend_meta.Service.Bounds.{Allowed, total, handle_forwardable_request-Bounded}
use databend_meta.Service.Relay.{request, relayed, handle_forwardable_request-relayed}
use databend_meta.Service.Unreachable.{handle_forwardable_request-err}

abbrev describe : ForwardToLeader → Text
describe ftl = []

-- "x"
abbrev endpoint_x : Endpoint
endpoint_x = record { addr = 120 ∷ []; port = 7 }

-- It advertises "x:9".
abbrev node_two : Node
unfolding new_node with_grpc_advertise_address
node_two = with_grpc_advertise_address (new_node (50 ∷ []) endpoint_x) (some (120 ∷ 58 ∷ 57 ∷ []))

abbrev leader : NodeView ℕ ℕ
leader = record {
  id = 2;
  get_leader = λ t. some (some 2);
  handle = λ t n. ok (suc n);
  get_node = λ t id. none;
  forward = λ t id req. err (rpc_network (connection_error []));
}

abbrev follower : NodeView ℕ ℕ
unfolding new_node with_grpc_advertise_address handle_forwardable_request forward serve_forward
follower = record {
  id = 1;
  get_leader = λ t. some (some 2);
  handle = λ t n. ok n;
  get_node = λ t id. some node_two;
  forward = λ t id req.
      forward endpoint_x
        (ok (serve_forward (handle_forwardable_request describe leader req).result));
}

handle_forwardable_request-relayed_example :
    (handle_forwardable_request describe follower (request 1 4)).result
    ≡ relayed
        (parsed describe follower (address_of describe follower (some node_two)))
        (handle_forwardable_request describe leader (request 0 4)).result
unfolding follower handle_as assume_leader
handle_forwardable_request-relayed_example =
    handle_forwardable_request-relayed describe follower leader 2 0 4 endpoint_x refl refl

forwarded :
    (handle_forwardable_request describe follower (request 1 4)).result
    ≡ ok (some (record { addr = 120 ∷ []; port = 9 }), 5)
unfolding follower parse
forwarded = refl

handle_forwardable_request-Bounded_example :
    (length (handle_forwardable_request describe follower (request 1 4)).sent ≤ 20)
    × (All
          (λ (m : ℕ × ForwardRequest ℕ). Allowed (request 1 4) m.1)
          (handle_forwardable_request describe follower (request 1 4)).sent
        × (total (handle_forwardable_request describe follower (request 1 4)).slept ≤ 19000))
handle_forwardable_request-Bounded_example =
    handle_forwardable_request-Bounded describe follower (request 1 4)

abbrev failure : ℕ → MetaNetworkError
failure t = connection_error (t ∷ [])

abbrev cut_off : NodeView ℕ ℕ
cut_off = record {
  id = 1;
  get_leader = λ t. some (some 2);
  handle = λ t n. ok n;
  get_node = λ t id. none;
  forward = λ t id req. err (rpc_network (failure t));
}

handle_forwardable_request-err_example :
    ((handle_forwardable_request describe cut_off (request 1 4)).result
      ≡ err (req_network (failure 19)))
    × (length (handle_forwardable_request describe cut_off (request 1 4)).sent ≡ 20)
unfolding handle_as assume_leader
handle_forwardable_request-err_example =
    handle_forwardable_request-err describe cut_off 2 0 4 failure (λ t. refl) (λ t. refl)
