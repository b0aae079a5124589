-- ===== src/Keys/Order.antt =====
-- `Ord for str`: lexicographic by code point, which is the order of the UTF-8 bytes.
use databend_meta.Common.{
  ℕ, ◌≡◌, refl, Bool, true, false, not, ◌&&◌, ◌||◌, Text, [], ◌∷◌, arith, ltb, leb, ◌==◌,
}

unfoldable pub text_leb : Text → Text → Bool
text_leb [] ys = true
text_leb (x ∷ xs) [] = false
text_leb (x ∷ xs) (y ∷ ys) = ltb x y || x == y && text_leb xs ys

unfoldable pub text_ltb : Text → Text → Bool
text_ltb xs [] = false
text_ltb [] (y ∷ ys) = true
text_ltb (x ∷ xs) (y ∷ ys) = ltb x y || x == y && text_ltb xs ys

unfoldable pub starts_with : Text → Text → Bool
starts_with [] k = true
starts_with (c ∷ p) [] = false
starts_with (c ∷ p) (x ∷ k) = c == x && starts_with p k

-- `char::MAX`
abbrev pub char_max : ℕ
char_max = 0x10FFFF

-- What a `char` can be: a code point that is no surrogate.
abbrev pub is_char : ℕ → Bool
is_char c = leb c char_max && (ltb c 0xD800 || ltb 0xDFFF c)

unfoldable pub is_text : Text → Bool
is_text [] = true
is_text (c ∷ cs) = is_char c && is_text cs

pub text_leb_refl : (xs : Text) → text_leb xs xs ≡ true
unfolding text_leb
text_leb_refl [] = refl
text_leb_refl (x ∷ xs) = ground (arith, text_leb_refl xs)

-- Less is not greater or equal.
pub text_ltb-not-text_leb : (xs ys : Text) → text_ltb xs ys ≡ not (text_leb ys xs)
unfolding text_ltb text_leb
text_ltb-not-text_leb [] [] = refl
text_ltb-not-text_leb (x ∷ xs) [] = refl
text_ltb-not-text_leb [] (y ∷ ys) = refl
text_ltb-not-text_leb (x ∷ xs) (y ∷ ys) = ground (arith, text_ltb-not-text_leb xs ys)
