-- ===== src/Client/Rotation.antt =====
-- Which nodes `choose_next` of endpoints.rs comes to.
use databend_meta.Common.{
  ℕ, zero, suc, ◌+◌, ◌-◌, ◌%◌, ◌≤◌, ◌<◌, ◌≡◌, refl, ◌∙◌, sym, ap, subst, Option, none, some, arith,
  Text, length, get_elem?, Option-cases, inl, inr,
}
use native.Mathlib.Decide.{dec_lt}
use native.Mathlib.Nat.{mod-eq_of_lt, mod_self}
use databend_meta.Client.Endpoints.{Endpoints, choose_next}
use databend_meta.Client.Chosen.{IsValid, AtNode, choose_next_lem, choose_next-none, current-at}
use databend_meta.Client.Sorted.{Ascending, get-length}

abbrev follow : (Endpoints → Option Endpoints) → Option (Text × Endpoints) → Option Endpoints
follow f none = none
follow f (some (n, e)) = f e

-- `choose_next`, so many times
unfoldable pub choose_times : ℕ → Endpoints → Option Endpoints
unfolding choose_next
choose_times zero e = some e
choose_times (suc k) e = follow (λ e'. choose_times k e') (choose_next e)

-- `choose_times` reaches clients with the same nodes, at an index.
abbrev Comes : ℕ → Endpoints → ℕ → Type 0
Comes k e j =
    (e' : Endpoints) × ((choose_times k e ≡ some e')
      × ((e'.nodes ≡ e.nodes) × ((c : Text) × AtNode j e' c)))

first_step :
    (e : Endpoints) (k j : ℕ) (n : Text)
    → choose_next e ≡ some (n, record e { current = some n })
    → Comes k (record e { current = some n }) j
    → Comes (suc k) e j
unfolding choose_times
first_step e k j n eq (e', (times, rest)) =
    (e', (ap (follow (λ e'. choose_times k e')) eq ∙ times, rest))

forward :
    (k i : ℕ) (e : Endpoints) (c : Text)
    → Ascending e.nodes
    → AtNode i e c
    → k + i < length e.nodes
    → Comes k e (k + i)
unfolding choose_times
forward zero i e c a at h =
    let zero_add : i ≡ 0 + i = omega arith in
    subst (λ x. Comes 0 e x) zero_add (e, (refl, (refl, (c, at))))
forward (suc k) i e c a at h =
    let (n, (next, eq)) = choose_next_lem e i c a at in
    let index : (i + 1) % length e.nodes ≡ i + 1 = mod-eq_of_lt (omega arith) in
    let next' = subst (λ x. get_elem? e.nodes x ≡ some n) index next in
    let rest = forward k (i + 1) (record e { current = some n }) n a (refl, next') (omega arith) in
    let sum : k + (i + 1) ≡ suc k + i = omega arith in
    first_step e k (suc k + i) n eq
      (subst (λ x. Comes k (record e { current = some n }) x) sum rest)

-- From the last node the first comes next.
wrap :
    (i : ℕ) (e : Endpoints) (c : Text)
    → Ascending e.nodes
    → AtNode i e c
    → suc i ≡ length e.nodes
    → (n : Text) × ((get_elem? e.nodes 0 ≡ some n)
        × (choose_next e ≡ some (n, record e { current = some n })))
wrap i e c a at h =
    let (n, (next, eq)) = choose_next_lem e i c a at in
    let index : (i + 1) % length e.nodes ≡ 0 =
      let last : i + 1 ≡ length e.nodes = omega arith in
      ap (λ x. x % length e.nodes) last ∙ mod_self (length e.nodes) in
    (n, (subst (λ x. get_elem? e.nodes x ≡ some n) index next, eq))

choose_times-add :
    (k l : ℕ) (e e' : Endpoints)
    → choose_times k e ≡ some e'
    → choose_times (k + l) e ≡ choose_times l e'
unfolding choose_times
choose_times-add zero l e e' h =
    let same : e ≡ e' = cc in
    let zero_add : 0 + l ≡ l = omega arith in
    ap (λ x. choose_times x e) zero_add ∙ ap (choose_times l) same
choose_times-add (suc k) l e e' h =
    let sum : suc k + l ≡ suc (k + l) = omega arith in
    ap (λ x. choose_times x e) sum ∙ elim (Option-cases (choose_next e)) [
      | inl stuck ↦ absurd (let h' = sym (ap (follow (choose_times k)) stuck) ∙ h in cc)
      | inr ((n, e1), eq) ↦
          let h' : choose_times k e1 ≡ some e' = sym (ap (follow (choose_times k)) eq) ∙ h in
          ap (follow (choose_times (k + l))) eq ∙ choose_times-add k l e1 e' h'
    ]

-- From the first node on
from_first :
    (j : ℕ) (e : Endpoints) (n : Text)
    → Ascending e.nodes
    → get_elem? e.nodes 0 ≡ some n
    → choose_next e ≡ some (n, record e { current = some n })
    → j < length e.nodes
    → Comes (suc j) e j
from_first j e n a at eq h =
    let add_zero : j + 0 ≡ j = omega arith in
    first_step e j j n eq (
      subst (λ x. Comes j (record e { current = some n }) x) add_zero
        (forward j 0 (record e { current = some n }) n a (refl, at) (omega arith)))

-- Around the end
around :
    (i j : ℕ) (e : Endpoints) (c : Text)
    → Ascending e.nodes
    → AtNode i e c
    → j < length e.nodes
    → Comes (length e.nodes - 1 - i + suc j) e j
around i j e c a at h =
    let in_range = get-length e.nodes i c at.1 in
    let (e1, (times, (same, (c1, at1)))) =
      forward (length e.nodes - 1 - i) i e c a at (omega arith) in
    let a1 : Ascending e1.nodes = subst Ascending (sym same) a in
    let end : length e.nodes - 1 - i + i ≡ length e.nodes - 1 = omega arith in
    let len : length e1.nodes ≡ length e.nodes = ap length same in
    let (n, (first, eq)) = wrap (length e.nodes - 1 - i + i) e1 c1 a1 at1 (omega arith) in
    let (e2, (times2, (same2, there))) = from_first j e1 n a1 first eq (omega arith) in
    (
      e2,
      (
        choose_times-add (length e.nodes - 1 - i) (suc j) e e1 times ∙ times2,
        (same2 ∙ same, there),
      ),
    )

abbrev pub Visits : Endpoints → Text → Type 0
Visits e c =
    (k : ℕ) × ((1 ≤ k)
      × ((k ≤ length e.nodes)
          × ((e' : Endpoints) × ((choose_times k e ≡ some e') × (e'.current ≡ some c)))))

Comes-Visits :
    (e : Endpoints) (k j : ℕ) (c : Text)
    → 1 ≤ k
    → k ≤ length e.nodes
    → get_elem? e.nodes j ≡ some c
    → Comes k e j
    → Visits e c
Comes-Visits e k j c low high at (e', (times, (same, (c', (cur, at'))))) =
    let at1 : get_elem? e.nodes j ≡ some c' = subst (λ ns. get_elem? ns j ≡ some c') same at' in
    let same_node : c' ≡ c = cc in
    (k, (low, (high, (e', (times, cur ∙ ap (λ x. some x) same_node)))))

-- Where the current node of a client, if any, is among its nodes: each of the nodes becomes the current one after
-- at least one and at most as many calls of `choose_next` as there are nodes.
pub choose_times-Visits :
    (e : Endpoints) (j : ℕ) (c : Text) → IsValid e → get_elem? e.nodes j ≡ some c → Visits e c
choose_times-Visits e j c v at =
    let in_range = get-length e.nodes j c at in
    elim (Option-cases e.current) [
      | inl cur ↦
          let (n, (first, eq)) = choose_next-none e cur (omega arith) in
          Comes-Visits e (suc j) j c (omega arith) (omega arith) at
            (from_first j e n v.ascending first eq in_range)
      | inr (d, cur) ↦
          let (i, here) = current-at e d v cur in
          let i_range = get-length e.nodes i d here in
          elim (dec_lt i j) [
            | yes before ↦
                let sum : j - i + i ≡ j = omega arith in
                Comes-Visits e (j - i) j c (omega arith) (omega arith) at (
                  subst (λ x. Comes (j - i) e x) sum
                    (forward (j - i) i e d v.ascending (cur, here) (omega arith)))
            | no after ↦
                Comes-Visits e (length e.nodes - 1 - i + suc j) j c (omega arith) (omega arith) at
                  (around i j e d v.ascending (cur, here) in_range)
          ]
    ]
