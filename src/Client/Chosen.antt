-- ===== src/Client/Chosen.antt =====
-- What the operations of endpoints.rs keep, and which node is chosen next.
use databend_meta.Common.{
  ℕ, ◌+◌, ◌%◌, ◌<◌, ◌≡◌, refl, subst, Bool, true, false, if◌then◌else◌, Option, none, some, List,
  arith, Text, length, get_elem?, Option-cases, inl, inr,
}
use native.Mathlib.Nat.{mod-lt}
use databend_meta.Client.Endpoints.{
  Endpoints, contains_key, collect, new, choose_next, current_or_next, set_current, replace_nodes,
  is_known, keep_or_next, set_if,
}
use databend_meta.Client.Sorted.{
  Ascending, collect-Ascending, position-get, get-contains_key, contains_key-get, get-length,
  length-get,
}

-- The nodes ascend, and the current one is among them.
pub record IsValid (e : Endpoints) : Type 0 where
  pub ascending : Ascending e.nodes
  pub known : is_known e.nodes e.current ≡ true

abbrev pub AtNode : ℕ → Endpoints → Text → Type 0
AtNode i e c = (e.current ≡ some c) × (get_elem? e.nodes i ≡ some c)

-- The node after the current one is chosen, and after the last the first.
pub choose_next_lem :
    (e : Endpoints) (i : ℕ) (c : Text)
    → Ascending e.nodes
    → AtNode i e c
    → (n : Text) × ((get_elem? e.nodes ((i + 1) % length e.nodes) ≡ some n)
        × (choose_next e ≡ some (n, record e { current = some n })))
unfolding choose_next
choose_next_lem e i c a (cur, at) =
    let found = position-get e.nodes i c a at in
    let in_range = get-length e.nodes i c at in
    let next_lt = mod-lt (i + 1) {m = length e.nodes} (omega arith) in
    let (n, next) = length-get e.nodes ((i + 1) % length e.nodes) next_lt in
    (n, (next, rw (cur, found, next)))

-- Without a current node the first is chosen.
pub choose_next-none :
    (e : Endpoints)
    → e.current ≡ none
    → 0 < length e.nodes
    → (n : Text) × ((get_elem? e.nodes 0 ≡ some n)
        × (choose_next e ≡ some (n, record e { current = some n })))
unfolding choose_next
choose_next-none e cur h = let (n, at) = length-get e.nodes 0 h in (n, (at, rw (cur, at)))

chosen-IsValid :
    (e : Endpoints) (i : ℕ) (n : Text)
    → Ascending e.nodes
    → get_elem? e.nodes i ≡ some n
    → IsValid (record e { current = some n })
unfolding contains_key
chosen-IsValid e i n a at = record { ascending = a; known = contains_key-get e.nodes i n at }

known-key :
    (e : Endpoints) (c : Text) → IsValid e → e.current ≡ some c → contains_key e.nodes c ≡ true
unfolding contains_key
known-key e c v cur = subst (λ o. is_known e.nodes o ≡ true) cur v.known

-- The current node stands at an index.
pub current-at :
    (e : Endpoints) (c : Text)
    → IsValid e
    → e.current ≡ some c
    → (i : ℕ) × (get_elem? e.nodes i ≡ some c)
current-at e c v cur = get-contains_key e.nodes c (known-key e c v cur)

choose_next-IsValid :
    (e : Endpoints)
    → IsValid e
    → 0 < length e.nodes
    → (n : Text) × ((choose_next e ≡ some (n, record e { current = some n }))
        × IsValid (record e { current = some n }))
choose_next-IsValid e v h = elim (Option-cases e.current) [
  | inl cur ↦
      let (n, (at, eq)) = choose_next-none e cur h in (n, (eq, chosen-IsValid e 0 n v.ascending at))
  | inr (c, cur) ↦
      let (i, at) = current-at e c v cur in
      let (n, (next, eq)) = choose_next_lem e i c v.ascending (cur, at) in
      (n, (eq, chosen-IsValid e _ n v.ascending next))
]

-- The operation returns the current node, which is one of the same nodes.
abbrev pub Kept : Endpoints → Option (Text × Endpoints) → Type 0
Kept e r =
    (n : Text) × ((e' : Endpoints) × ((r ≡ some (n, e'))
        × ((e'.nodes ≡ e.nodes) × ((e'.current ≡ some n) × IsValid e'))))

choose_next-Kept : (e : Endpoints) → IsValid e → 0 < length e.nodes → Kept e (choose_next e)
choose_next-Kept e v h =
    let (n, (eq, valid)) = choose_next-IsValid e v h in
    (n, (record e { current = some n }, (eq, (refl, (refl, valid)))))

keep_or_next-Kept :
    (e : Endpoints) (o : Option Text)
    → IsValid e
    → 0 < length e.nodes
    → e.current ≡ o
    → Kept e (keep_or_next e o)
unfolding choose_next
keep_or_next-Kept e none v h cur = choose_next-Kept e v h
keep_or_next-Kept e (some c) v h cur = (c, (e, (refl, (refl, (cur, v)))))

set_if-IsValid :
    (e : Endpoints) (current : Option Text) (b : Bool)
    → IsValid e
    → is_known e.nodes current ≡ b
    → IsValid (set_if b current e).1
unfolding contains_key
set_if-IsValid e current true v known = record { ascending = v.ascending; known = known }
set_if-IsValid e current false v known = v

replace_if-IsValid :
    (nodes : List Text) (current : Option Text) (b : Bool)
    → Ascending nodes
    → is_known nodes current ≡ b
    → IsValid (record { current = if b then current else none; nodes = nodes })
unfolding contains_key
replace_if-IsValid nodes current true a known = record { ascending = a; known = known }
replace_if-IsValid nodes current false a known = record { ascending = a; known = refl }

-- Where the current node of a client, if any, is among its nodes, this holds as well after the current one is set and
-- after the nodes are replaced, whatever they are set to or replaced by; and where the client has nodes, choosing the next and
-- asking for the current one do not panic, keep the nodes and return the node that is then current, one of the nodes.
pub operations-IsValid :
    (e : Endpoints)
    → IsValid e
    → ((current : Option Text) → IsValid (set_current current e).1)
      × (((nodes : List Text) → IsValid (replace_nodes nodes e))
          × (0 < length e.nodes → Kept e (choose_next e) × Kept e (current_or_next e)))
unfolding set_current replace_nodes current_or_next
operations-IsValid e v = (
  λ current. set_if-IsValid e current (is_known e.nodes current) v refl,
  (
    λ nodes. replace_if-IsValid (collect nodes) e.current _ (collect-Ascending nodes) refl,
    λ h. (choose_next-Kept e v h, keep_or_next-Kept e e.current v h refl),
  ),
)

-- A new client has no current node.
pub new-IsValid : (nodes : List Text) → IsValid (new nodes)
unfolding new contains_key
new-IsValid nodes = record { ascending = collect-Ascending nodes; known = refl }
