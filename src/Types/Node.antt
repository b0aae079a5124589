-- ===== src/Types/Node.antt =====
-- crates/server/base/src/node.rs and endpoint.rs; the parser of an address is in Address.
use databend_meta.Common.{ℕ, Option, none, Text, Bool, ◌&&◌, ◌==◌, text_eq, option_eq}

pub record Endpoint : Type 0 where
  pub addr : Text
  pub port : ℕ

unfoldable pub new_endpoint : Text → ℕ → Endpoint
new_endpoint addr port = record { addr = addr; port = port }

pub record Node : Type 0 where
  pub name : Text
  pub endpoint : Endpoint
  pub grpc_api_addr : Option Text
  pub grpc_api_advertise_address : Option Text

unfoldable pub new_node : Text → Endpoint → Node
new_node name endpoint = record {
  name = name;
  endpoint = endpoint;
  grpc_api_addr = none;
  grpc_api_advertise_address = none;
}

unfoldable pub with_grpc_advertise_address : Node → Option Text → Node
with_grpc_advertise_address n g = record n { grpc_api_advertise_address = g }

-- The derived `PartialEq`
unfoldable pub node_eq : Node → Node → Bool
node_eq a b =
    text_eq a.name b.name
    && text_eq a.endpoint.addr b.endpoint.addr
    && a.endpoint.port == b.endpoint.port
    && option_eq text_eq a.grpc_api_addr b.grpc_api_addr
    && option_eq text_eq a.grpc_api_advertise_address b.grpc_api_advertise_address
