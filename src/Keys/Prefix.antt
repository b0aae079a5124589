-- ===== src/Keys/Prefix.antt =====
-- `prefix_right_bound` of crates/server/raft-store/src/utils.rs
use databend_meta.Common.{
  ℕ, zero, suc, ◌+◌, ◌≤◌, ◌<◌, ◌∙◌, ap, ◌≡◌, refl, Option, none, some, option_map, unwrap_or, Text,
  [], ◌∷◌, arith, ◌==◌, if◌then◌else◌, length, get_elem?, take,
}
use databend_meta.Keys.Order.{is_char, char_max}

-- `chars[i] = next_char`
abbrev set : Text → ℕ → ℕ → Text
set [] i v = []
set (x ∷ xs) zero v = v ∷ xs
set (x ∷ xs) (suc i) v = x ∷ set xs i v

-- `char::from_u32`
abbrev pub from_u32 : ℕ → Option ℕ
from_u32 c = if is_char c then some c else none

abbrev incremented : ℕ → Text → ℕ → Option Text
incremented i chars c = option_map (λ next. take (suc i) (set chars i next)) (from_u32 (c + 1))

-- The body of the loop at `i`; `some` is an early return.
abbrev at_index : ℕ → Text → Option (Option Text) → Option ℕ → Option (Option Text)
at_index i chars rest none = none
at_index i chars rest (some c) = if c == char_max then rest else some (incremented i chars c)

-- `for i in (0..n).rev()`
search_from : ℕ → Text → Option (Option Text)
search_from zero chars = none
search_from (suc i) chars =
    let rest = search_from i chars in at_index i chars rest (get_elem? chars i)

unfoldable pub prefix_right_bound : Text → Option Text
unfolding search_from
prefix_right_bound p = unwrap_or (search_from (length p) p) none

-- The same from the left: what the search in the tail found, and else this character.
abbrev pub extend_bound : ℕ → Option (Option Text) → Option (Option Text)
extend_bound c (some found) = some (option_map (λ r. c ∷ r) found)
extend_bound c none =
    if c == char_max then none else some (option_map (λ n. n ∷ []) (from_u32 (c + 1)))

abbrev pub bound : Text → Option (Option Text)
bound [] = none
bound (c ∷ cs) = extend_bound c (bound cs)

get_elem?_of_lt : (xs : Text) (i : ℕ) → i < length xs → (x : ℕ) × (get_elem? xs i ≡ some x)
get_elem?_of_lt [] i h = elim h [ ]
get_elem?_of_lt (x ∷ xs) zero h = (x, refl)
get_elem?_of_lt (x ∷ xs) (suc i) h = get_elem?_of_lt xs i (omega arith)

-- One more round at the same character, with the longer text around it.
at_index-suc :
    (c i x : ℕ) (cs : Text) (rest : Option (Option Text))
    → at_index (suc i) (c ∷ cs) (extend_bound c rest) (some x)
      ≡ extend_bound c (at_index i cs rest (some x))
at_index-suc c i x cs rest = ground arith

search_from-suc :
    (c : ℕ) (i : ℕ) (cs : Text)
    → i ≤ length cs
    → search_from (suc i) (c ∷ cs) ≡ extend_bound c (search_from i cs)
unfolding search_from
search_from-suc c zero cs h = refl
search_from-suc c (suc i) cs h =
    let (x, e) = get_elem?_of_lt cs i (omega arith) in
    rw (e, search_from-suc c i cs (omega arith)) (at_index-suc c i x cs (search_from i cs))

search_from-bound : (p : Text) → search_from (length p) p ≡ bound p
unfolding search_from
search_from-bound [] = refl
search_from-bound (c ∷ cs) =
    search_from-suc c (length cs) cs (omega arith) ∙ ap (extend_bound c) (search_from-bound cs)

pub prefix_right_bound-bound : (p : Text) → prefix_right_bound p ≡ unwrap_or (bound p) none
unfolding prefix_right_bound
prefix_right_bound-bound p = rw search_from-bound
