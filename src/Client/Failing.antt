-- ===== src/Client/Failing.antt =====
-- `rotate_failing_endpoint` of endpoints.rs, called by several callers.
use databend_meta.Common.{
  ℕ, ◌+◌, ◌%◌, ◌≤◌, ◌<◌, ◌≡◌, ◌≢◌, ◌∙◌, ap, true, false, Option, some, List, arith, Text, length,
  get_elem?, Bool-cases, inl, inr, option_eq, text_eq, text_eq_refl, text_eq_sound, if◌then◌else◌,
}
use native.Mathlib.Decide.{dec_lt}
use native.Mathlib.Nat.{mod-eq_of_lt, mod_self}
use databend_meta.Client.Endpoints.{Endpoints, choose_next, rotate_failing_endpoint, rotated}
use databend_meta.Client.Chosen.{IsValid, choose_next_lem, current-at}
use databend_meta.Client.Sorted.{Ascending, get-length, position-get}

next_ne : (i n : ℕ) → i < n → 2 ≤ n → (i + 1) % n ≢ i
next_ne i n h two e = elim (dec_lt (i + 1) n) [
  | yes below ↦ let same : (i + 1) % n ≡ i + 1 = mod-eq_of_lt below in omega arith
  | no last ↦
      let at_end : i + 1 ≡ n = omega arith in
      let start : (i + 1) % n ≡ 0 = ap (λ x. x % n) at_end ∙ mod_self n in omega arith
]

other_node :
    (js : List Text) (i : ℕ) (c n : Text)
    → Ascending js
    → get_elem? js i ≡ some c
    → get_elem? js ((i + 1) % length js) ≡ some n
    → 2 ≤ length js
    → n ≢ c
other_node js i c n a here next h e =
    let found_c = position-get js i c a here in
    let found_n = position-get js ((i + 1) % length js) n a next in
    let same : (i + 1) % length js ≡ i = cc in next_ne i (length js) (get-length js i c here) h same

text_eq-ne : (n c : Text) → n ≢ c → text_eq n c ≡ false
text_eq-ne n c h = elim (Bool-cases (text_eq n c)) [
  | inl e ↦ absurd (h (text_eq_sound n c e))
  | inr e ↦ e
]

rotates :
    (e : Endpoints) (c : Text) (r : Option (Text × Endpoints))
    → e.current ≡ some c
    → choose_next e ≡ r
    → rotate_failing_endpoint (some c) e ≡ rotated r
unfolding rotate_failing_endpoint
rotates e c r cur eq =
    let same : option_eq text_eq e.current (some c) ≡ true =
      ap (λ o. option_eq text_eq o (some c)) cur ∙ text_eq_refl c in
    ap (λ b. if b then rotated (choose_next e) else some e) same ∙ ap rotated eq

-- Where the current node `c` of a client is among its nodes, of which there are at least two: a caller for which `c` failed moves the
-- client on to another node, and a second caller for which `c` failed as well leaves it there.
pub rotate_failing_endpoint-once :
    (e : Endpoints) (c : Text)
    → IsValid e
    → e.current ≡ some c
    → 2 ≤ length e.nodes
    → (e' : Endpoints) × ((rotate_failing_endpoint (some c) e ≡ some e')
        × ((e'.current ≢ some c) × (rotate_failing_endpoint (some c) e' ≡ some e')))
unfolding rotate_failing_endpoint
rotate_failing_endpoint-once e c v cur h =
    let (i, here) = current-at e c v cur in
    let (n, (next, eq)) = choose_next_lem e i c v.ascending (cur, here) in
    let other = other_node e.nodes i c n v.ascending here next h in
    (
      record e { current = some n },
      (
        rotates e c _ cur eq,
        ((λ e'. other (let same : n ≡ c = cc in same)), rw (text_eq-ne n c other)),
      ),
    )
