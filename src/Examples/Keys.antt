-- ===== src/Examples/Keys.antt =====
-- Prefixes and sequential keys.
use databend_meta.Common.{◌≡◌, refl, true, false, none, [], ◌∷◌, Text}
use databend_meta.Keys.Order.{starts_with, is_text, char_max}
use databend_meta.Keys.Prefix.{prefix_right_bound}
use databend_meta.Keys.Range.{
  in_range, last_not_max, before_surrogates, in_range-starts_with, unbounded_scan,
}
use databend_meta.Examples.{key_a, key_ab, key_a_bounded}

in_range-starts_with_example :
    in_range key_a (prefix_right_bound key_a) key_ab ≡ starts_with key_a key_ab
unfolding is_text
in_range-starts_with_example = in_range-starts_with key_a key_ab refl refl key_a_bounded

-- the prefix U+D7FF
abbrev last_before : Text
last_before = before_surrogates ∷ []

unbounded_scan_example :
    (prefix_right_bound last_before ≡ none)
    × (in_range last_before (prefix_right_bound last_before) (char_max ∷ last_before) ≡ true)
    × (starts_with last_before (char_max ∷ last_before) ≡ false)
unfolding is_text last_not_max
unbounded_scan_example = unbounded_scan last_before refl refl
