-- ===== src/Versions/Truth.antt =====
-- Facts on truth values and on the highest version that the ranges rest on.
use databend_meta.Common.{◌≡◌, arith, Bool, true, false, not, ◌&&◌, ◌||◌}
use databend_meta.Versions.Version.{Version, highest, lt, le, version_eq}

pub regroup : (a b c d : Bool) → ((a && b) && (c && d)) ≡ ((a && c) && (b && d))
regroup a b c d = ground arith

pub and_assoc : (a b c : Bool) → ((a && b) && c) ≡ (a && (b && c))
and_assoc a b c = ground arith

pub both : (a b : Bool) → a ≡ true → b ≡ true → (a && b) ≡ true
both a b h k = ground arith

pub parts : (a b : Bool) → (a && b) ≡ true → (a ≡ true) × (b ≡ true)
parts a b h = ground arith

pub and_true : (a : Bool) → a ≡ (a && true)
and_true a = ground arith

pub skipped : (a l u v : Bool) → a ≡ true → l ≡ false → (a ≡ true) × ((not (l && u) || v) ≡ true)
skipped a l u v h e = ground arith

pub capped :
    (a b c u v : Bool)
    → (a && (b && c)) ≡ true
    → ((a && b) ≡ true) × ((not (not c && u) || v) ≡ true)
capped a b c u v h = ground arith

pub floored :
    (a b c l v : Bool)
    → ((a && not l) && b) ≡ true
    → ((a && b) ≡ true) × ((not (c && l) || v) ≡ true)
floored a b c l v h = ground arith

pub kept :
    (a x p q : Bool)
    → a ≡ true
    → p ≡ false
    → not q ≡ false
    → (a ≡ true) × ((not x || (not p && q)) ≡ true)
kept a x p q h e f = ground arith

pub not_highest :
    (v c : Version) → version_eq v highest ≡ true → lt c highest ≡ true → le v c ≡ false
not_highest v c h k = ground arith
