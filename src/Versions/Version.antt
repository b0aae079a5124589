-- ===== src/Versions/Version.antt =====
-- crates/common/version/src/version.rs
use databend_meta.Common.{
  ℕ, ◌+◌, ◌*◌, ◌/◌, ◌%◌, ◌<◌, ◌≡◌, arith, Bool, true, not, ◌&&◌, ◌||◌, ltb, ◌==◌, if◌then◌else◌,
}
use databend_meta.Common.Int.{u64_mod, u64_max}

pub record Version : Type 0 where
  pub major : ℕ
  pub minor : ℕ
  pub patch : ℕ

unfoldable pub new : ℕ → ℕ → ℕ → Version
new major minor patch = record { major = major; minor = minor; patch = patch }

unfoldable pub to_digit : Version → ℕ
to_digit v = (v.major * 1_000_000 + v.minor * 1_000 + v.patch) % u64_mod

unfoldable pub from_digit : ℕ → Version
from_digit u = record { major = u / 1_000_000; minor = u / 1_000 % 1_000; patch = u % 1_000 }

-- `Version::min()` and `Version::max()`
abbrev pub lowest : Version
lowest = record { major = 0; minor = 0; patch = 0 }

abbrev pub highest : Version
highest = record { major = u64_max; minor = u64_max; patch = u64_max }

-- The derived order: by major, then minor, then patch.
abbrev pub lt : Version → Version → Bool
lt a b =
    ltb a.major b.major
    || a.major == b.major && (ltb a.minor b.minor || a.minor == b.minor && ltb a.patch b.patch)

abbrev pub le : Version → Version → Bool
le a b = not (lt b a)

abbrev pub version_eq : Version → Version → Bool
version_eq a b = a.major == b.major && a.minor == b.minor && a.patch == b.patch

-- `Ord::max` and `Ord::min`
abbrev pub greater : Version → Version → Version
greater a b = if lt b a then a else b

abbrev pub lesser : Version → Version → Version
lesser a b = if lt b a then b else a

-- A version whose minor and patch have at most three digits, and whose number is a `u64`, is decoded from its number.
pub from_digit-to_digit :
    (v : Version)
    → v.minor < 1_000
    → v.patch < 1_000
    → v.major * 1_000_000 + v.minor * 1_000 + v.patch < u64_mod
    → from_digit (to_digit v) ≡ v
unfolding from_digit to_digit
from_digit-to_digit v minor patch small = ground arith

pub le-greater : (a b s : Version) → le (greater a b) s ≡ (le a s && le b s)
le-greater a b s = ground arith

pub lt-lesser : (a b s : Version) → lt s (lesser a b) ≡ (lt s a && lt s b)
lt-lesser a b s = ground arith

pub le-lowest : (s : Version) → le lowest s ≡ true
le-lowest s = ground arith

pub le-lt_trans : (a b c : Version) → le a b ≡ true → lt b c ≡ true → lt a c ≡ true
le-lt_trans a b c h k = ground arith
