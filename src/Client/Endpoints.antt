-- ===== src/Client/Endpoints.antt =====
-- crates/client/client/src/endpoints.rs. `nodes` lists the keys of a `BTreeMap` in their order; the values are empty. `none` is
-- a panic. A lock makes each operation one step.
use databend_meta.Common.{
  ℕ, suc, ◌+◌, ◌%◌, Bool, true, false, ◌||◌, Option, none, some, List, [], ◌∷◌, Text, text_eq,
  if◌then◌else◌, option_map, length, get_elem?, option_eq,
}
use databend_meta.Keys.Order.{text_ltb}

pub record Endpoints : Type 0 where
  pub current : Option Text
  pub nodes : List Text

-- `BTreeMap::insert`
unfoldable pub insert : Text → List Text → List Text
insert k [] = k ∷ []
insert k (j ∷ js) =
    let rest = insert k js in
    if text_eq k j then j ∷ js else if text_ltb k j then k ∷ j ∷ js else j ∷ rest

-- `BTreeMap::contains_key`
unfoldable pub contains_key : List Text → Text → Bool
contains_key [] k = false
contains_key (j ∷ js) k = text_eq j k || contains_key js k

-- `collect()` into the map, for which the order of the keys makes no difference
unfoldable pub collect : List Text → List Text
unfolding insert
collect [] = []
collect (k ∷ ks) = insert k (collect ks)

unfoldable pub new : List Text → Endpoints
unfolding collect
new nodes = record { current = none; nodes = collect nodes }

-- `position(|x| x == c)`
unfoldable pub position : Text → List Text → Option ℕ
position c [] = none
position c (x ∷ xs) = if text_eq x c then some 0 else option_map (λ i. suc i) (position c xs)

abbrev pub chosen : Endpoints → Option Text → Option (Text × Endpoints)
chosen e none = none
chosen e (some n) = some (n, record e { current = some n })

abbrev pub choose_after : Endpoints → Option ℕ → Option (Text × Endpoints)
choose_after e none = none
choose_after e (some index) = chosen e (get_elem? e.nodes ((index + 1) % length e.nodes))

abbrev pub choose_from : Endpoints → Option Text → Option (Text × Endpoints)
unfolding position
choose_from e none = chosen e (get_elem? e.nodes 0)
choose_from e (some c) = choose_after e (position c e.nodes)

unfoldable pub choose_next : Endpoints → Option (Text × Endpoints)
unfolding position
choose_next e = choose_from e e.current

abbrev pub keep_or_next : Endpoints → Option Text → Option (Text × Endpoints)
unfolding choose_next
keep_or_next e none = choose_next e
keep_or_next e (some c) = some (c, e)

unfoldable pub current_or_next : Endpoints → Option (Text × Endpoints)
unfolding choose_next
current_or_next e = keep_or_next e e.current

-- `Result<Option<String>, String>`, the message by what it names
pub data SetCurrent : Type 0 where
  ok : Option Text → SetCurrent
  not_in_nodes : Text → List Text → SetCurrent

abbrev pub is_known : List Text → Option Text → Bool
unfolding contains_key
is_known nodes none = true
is_known nodes (some c) = contains_key nodes c

abbrev pub refused : Option Text → List Text → SetCurrent
refused none nodes = ok none
refused (some c) nodes = not_in_nodes c nodes

abbrev pub set_if : Bool → Option Text → Endpoints → SetCurrent × Endpoints
set_if true current e = (ok e.current, record e { current = current })
set_if false current e = (refused current e.nodes, e)

unfoldable pub set_current : Option Text → Endpoints → SetCurrent × Endpoints
unfolding contains_key
set_current current e = set_if (is_known e.nodes current) current e

unfoldable pub replace_nodes : List Text → Endpoints → Endpoints
unfolding collect contains_key
replace_nodes nodes e =
    let new_nodes = collect nodes in
    record { current = if is_known new_nodes e.current then e.current else none; nodes = new_nodes }

abbrev pub rotated : Option (Text × Endpoints) → Option Endpoints
rotated o = option_map (λ (n, e). e) o

unfoldable pub rotate_failing_endpoint : Option Text → Endpoints → Option Endpoints
unfolding choose_next
rotate_failing_endpoint none e = rotated (choose_next e)
rotate_failing_endpoint (some failing) e =
    if option_eq text_eq e.current (some failing) then rotated (choose_next e) else some e
