-- ===== src/Keys/Range.antt =====
-- The keys that a scan of a prefix visits: `prefix..prefix_right_bound(prefix)`, or `prefix..` where
-- there is no bound (`list_kv` of crates/server/raft-store/src/state_machine_api_ext.rs).
use databend_meta.Common.{
  ℕ, ◌≡◌, ◌≢◌, ◌↔◌, ◌∙◌, ap, refl, Bool, true, false, ◌&&◌, Option, none, some, unwrap_or, Text, [],
  ◌∷◌, arith, ◌==◌, if◌then◌else◌,
}
use databend_meta.Keys.Order.{text_leb, text_ltb, starts_with, is_char, is_text, char_max}
use databend_meta.Keys.Prefix.{prefix_right_bound, bound, extend_bound, prefix_right_bound-bound}

abbrev pub below : Option Text → Text → Bool
below none k = true
below (some right) k = text_ltb k right

-- A key of the half-open range from `left` to `right`.
unfoldable pub in_range : Text → Option Text → Text → Bool
in_range left right k = text_leb left k && below right k

-- The last character of a prefix that is not the greatest one.
unfoldable pub last_not_max : Text → Option ℕ
last_not_max [] = none
last_not_max (c ∷ cs) = elim (last_not_max cs) [
  | some x ↦ some x
  | none ↦ if c == char_max then none else some c
]

-- The last character before the surrogates: it has no successor.
abbrev pub before_surrogates : ℕ
before_surrogates = 0xD7FF

-- What the bound found from the left says about the range.
abbrev Covers : Text → Option (Option Text) → Text → Type 0
Covers p none k = text_leb p k ≡ starts_with p k
Covers p (some none) k = Unit
Covers p (some (some r)) k = (text_leb p k && text_ltb k r) ≡ starts_with p k

Covers-step :
    (c x : ℕ) (cs xs : Text) (b : Option (Option Text))
    → is_char c ≡ true
    → is_char x ≡ true
    → Covers cs b xs
    → Covers (c ∷ cs) (extend_bound c b) (x ∷ xs)
unfolding text_leb text_ltb starts_with
Covers-step c x cs xs none hc hx h = ground arith
Covers-step c x cs xs (some none) hc hx h = tt
Covers-step c x cs xs (some (some r)) hc hx h = ground arith

Covers-nil : (c : ℕ) (cs : Text) (b : Option (Option Text)) → Covers (c ∷ cs) (extend_bound c b) []
unfolding text_leb text_ltb starts_with
Covers-nil c cs none = ground arith
Covers-nil c cs (some none) = tt
Covers-nil c cs (some (some r)) = refl

Covers-bound : (p k : Text) → is_text p ≡ true → is_text k ≡ true → Covers p (bound p) k
unfolding is_text
Covers-bound [] k hp hk = unfold text_leb starts_with in refl
Covers-bound (c ∷ cs) [] hp hk = Covers-nil c cs (bound cs)
Covers-bound (c ∷ cs) (x ∷ xs) hp hk =
    Covers-step c x cs xs (bound cs) (ground arith) (ground arith)
      (Covers-bound cs xs (ground arith) (ground arith))

none_of_bound : (p : Text) → (bound p ≡ none) ↔ (last_not_max p ≡ none)
unfolding last_not_max
none_of_bound [] = ground arith
none_of_bound (c ∷ cs) = ground (arith, none_of_bound cs)

bound-last_not_max :
    (p : Text) → is_text p ≡ true → bound p ≡ some none → last_not_max p ≡ some before_surrogates
unfolding is_text last_not_max
bound-last_not_max [] h e = cc
bound-last_not_max (c ∷ cs) h e = ground (arith, bound-last_not_max cs, none_of_bound cs)

covered :
    (p k : Text) (b : Option (Option Text))
    → Covers p b k
    → b ≢ some none
    → (text_leb p k && below (unwrap_or b none) k) ≡ starts_with p k
covered p k none h n = ground arith
covered p k (some none) h n = absurd (n refl)
covered p k (some (some r)) h n = h

last_not_max-bound : (p : Text) → last_not_max p ≡ some before_surrogates → bound p ≡ some none
unfolding last_not_max
last_not_max-bound [] h = cc
last_not_max-bound (c ∷ cs) h = ground (arith, last_not_max-bound cs, none_of_bound cs)

-- For a prefix and a key that are texts, where the prefix does not end in U+D7FF followed by none or
-- some U+10FFFF: the key lies in the scanned range exactly when it starts with the prefix.
pub in_range-starts_with :
    (p k : Text)
    → is_text p ≡ true
    → is_text k ≡ true
    → last_not_max p ≢ some before_surrogates
    → in_range p (prefix_right_bound p) k ≡ starts_with p k
unfolding in_range
in_range-starts_with p k hp hk n =
    rw (prefix_right_bound-bound p)
      (covered p k (bound p) (Covers-bound p k hp hk) (λ e. n (bound-last_not_max p hp e)))

text_leb-cons_max : (p : Text) → is_text p ≡ true → text_leb p (char_max ∷ p) ≡ true
unfolding is_text text_leb
text_leb-cons_max [] h = refl
text_leb-cons_max (c ∷ cs) h = ground (arith, text_leb-cons_max cs)

starts_with-cons_max : (p : Text) → starts_with p (char_max ∷ p) ≡ true → last_not_max p ≡ none
unfolding starts_with last_not_max
starts_with-cons_max [] h = refl
starts_with-cons_max (c ∷ cs) h = ground (arith, starts_with-cons_max cs)

-- A text whose last character before any U+10FFFF at its end is U+D7FF gets no right bound, and its
-- scan then visits a key that does not start with it.
pub unbounded_scan :
    (p : Text)
    → is_text p ≡ true
    → last_not_max p ≡ some before_surrogates
    → (prefix_right_bound p ≡ none)
      × (in_range p (prefix_right_bound p) (char_max ∷ p) ≡ true)
      × (starts_with p (char_max ∷ p) ≡ false)
unfolding in_range
unbounded_scan p h e =
    let found : prefix_right_bound p ≡ none =
      prefix_right_bound-bound p ∙ ap (λ b. unwrap_or b none) (last_not_max-bound p e) in
    (found, ground (arith, found, text_leb-cons_max p h), ground (arith, starts_with-cons_max p))
