-- ===== src/Types/Address.antt =====
-- `Endpoint::parse` of crates/server/base/src/endpoint.rs, with `parse::<u16>` of the standard library.
use databend_meta.Common.{ℕ, Option, none, some, [], ◌∷◌, Text, ◌==◌, if◌then◌else◌, option_map}
use databend_meta.Common.Decimal.{parse_uint}
use databend_meta.Types.Node.{Endpoint, new_endpoint}

abbrev parse_u16 : Text → Option ℕ
unfolding parse_uint
parse_u16 s = parse_uint 65536 s

-- `splitn(2, ':')`: what stands before the first colon and after it; `none` where there is no colon.
unfoldable pub split_colon : Text → Option (Text × Text)
split_colon [] = none
split_colon (c ∷ cs) =
    let rest = split_colon cs in
    if c == 58 then some ([], cs) else option_map (λ ((a, b) : Text × Text). (c ∷ a, b)) rest

abbrev pub with_port : Text → Option ℕ → Option Endpoint
unfolding new_endpoint
with_port addr none = none
with_port addr (some port) = some (new_endpoint addr port)

abbrev pub parse_parts : Option (Text × Text) → Option Endpoint
unfolding parse_uint new_endpoint
parse_parts none = none
parse_parts (some (addr, port)) = with_port addr (parse_u16 port)

-- `none` is the error.
unfoldable pub parse : Text → Option Endpoint
unfolding split_colon parse_uint new_endpoint
parse address = parse_parts (split_colon address)
