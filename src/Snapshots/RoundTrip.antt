-- ===== src/Snapshots/RoundTrip.antt =====
-- What the names of snapshots are read as.
use mathlib.Core.List.{append-nil}
use databend_meta.Common.{
  ℕ, ◌<◌, ◌≡◌, ◌∙◌, refl, ap, Option, none, some, List, [], ◌∷◌, ◌++◌, Text, arith, All, subst,
}
use databend_meta.Common.Int.{u64_mod}
use databend_meta.Common.Decimal.{
  digits, parse_uint, IsDigit, digits-IsDigit, parse_uint-digits, parse_uint-lt,
}
use databend_meta.Types.SysData.{LogId}
use databend_meta.Snapshots.Id.{
  MetaSnapshotId, dash, log_prefix, key_suffix, display, split_dash, log_id_from, key_num_from,
  keys_from, ◌>>=◌, from_segs, from_str, snapshot_fn, extract_snapshot_id_from_fn,
}
use databend_meta.Snapshots.Names.{extract_snapshot_id_from_fn-snapshot_fn}

abbrev pub LogFits : Option LogId → Type 0
LogFits none = Unit
LogFits (some l) = (l.term < u64_mod) × (l.node_id < u64_mod) × (l.index < u64_mod)

abbrev pub KeyFits : Option ℕ → Type 0
KeyFits none = Unit
KeyFits (some n) = n < u64_mod

-- The numbers of an id are `u64` values.
abbrev pub Fits : MetaSnapshotId → Type 0
Fits id = LogFits id.last_applied × (id.uniq < u64_mod) × KeyFits id.key_num

split_dash-append :
    (xs rest : Text) → All IsDigit xs → split_dash (xs ++ dash ∷ rest) ≡ xs ∷ split_dash rest
unfolding split_dash
split_dash-append [] rest d = refl
split_dash-append (x ∷ xs) rest d = ground (arith, split_dash-append xs rest d.1)

split_dash_whole : (xs : Text) → All IsDigit xs → split_dash xs ≡ xs ∷ []
unfolding split_dash
split_dash_whole [] d = refl
split_dash_whole (x ∷ xs) d = ground (arith, split_dash_whole xs d.1)

split_dash_key : (xs : Text) → All IsDigit xs → split_dash (b'k' ∷ xs) ≡ (b'k' ∷ xs) ∷ []
unfolding split_dash
split_dash_key xs d = rw (split_dash_whole xs d)

parse_u64-to_string : (n : ℕ) → n < u64_mod → parse_uint u64_mod (digits 20 n) ≡ some n
parse_u64-to_string n h = parse_uint-digits 19 u64_mod n (omega arith) h

parse_uint-nil : (limit : ℕ) → parse_uint limit [] ≡ none
unfolding parse_uint
parse_uint-nil limit = refl

log_id_from-some :
    (term node_id log_index : Text) (t n i : ℕ)
    → parse_uint u64_mod term ≡ some t
    → parse_uint u64_mod node_id ≡ some n
    → parse_uint u64_mod log_index ≡ some i
    → log_id_from term node_id log_index ≡ some (some (record { term = t; node_id = n; index = i }))
log_id_from-some [] node_id log_index t n i ht hn hi = let e = parse_uint-nil u64_mod in cc
log_id_from-some (c ∷ cs) node_id log_index t n i ht hn hi = rw (ht, hn, hi)

-- The segments behind the log id.
tail_segs : ℕ → Option ℕ → List Text
tail_segs uniq none = digits 20 uniq ∷ []
tail_segs uniq (some n) = digits 20 uniq ∷ (b'k' ∷ digits 20 n) ∷ []

split_dash-tail :
    (uniq : ℕ) (key_num : Option ℕ)
    → split_dash (digits 20 uniq ++ key_suffix key_num) ≡ tail_segs uniq key_num
unfolding tail_segs
split_dash-tail uniq none = rw append-nil (split_dash_whole _ (digits-IsDigit 20 uniq))
split_dash-tail uniq (some n) =
    split_dash-append (digits 20 uniq) (b'k' ∷ digits 20 n) (digits-IsDigit 20 uniq)
    ∙ ap (λ segs. digits 20 uniq ∷ segs) (split_dash_key (digits 20 n) (digits-IsDigit 20 n))

keys_from-tail :
    (last : Option LogId) (uniq : ℕ) (key_num : Option ℕ)
    → uniq < u64_mod
    → KeyFits key_num
    → (term node_id log_index : Text) → log_id_from term node_id log_index ≡ some last
    → from_segs (term ∷ node_id ∷ log_index ∷ tail_segs uniq key_num)
      ≡ some (record { last_applied = last; uniq = uniq; key_num = key_num })
unfolding tail_segs
keys_from-tail last uniq none u k term node_id log_index h = rw (h, parse_u64-to_string uniq u)
keys_from-tail last uniq (some n) u k term node_id log_index h =
    rw (h, parse_u64-to_string uniq u, parse_u64-to_string n k)

read_parts :
    (last : Option LogId) (uniq : ℕ) (key_num : Option ℕ)
    → LogFits last
    → uniq < u64_mod
    → KeyFits key_num
    → from_str (log_prefix last (digits 20 uniq ++ key_suffix key_num))
      ≡ some (record { last_applied = last; uniq = uniq; key_num = key_num })
unfolding from_str
read_parts none uniq key_num l u k =
    let rest = digits 20 uniq ++ key_suffix key_num in
    rw
      (
        split_dash-append [] (dash ∷ dash ∷ rest) tt,
        split_dash-append [] (dash ∷ rest) tt,
        split_dash-append [] rest tt,
        split_dash-tail uniq key_num,
      )
      (keys_from-tail none uniq key_num u k [] [] [] refl)
read_parts (some l) uniq key_num (t, n, i) u k =
    rw
      (
        split_dash-append (digits 20 l.term) _ (digits-IsDigit 20 l.term),
        split_dash-append (digits 20 l.node_id) _ (digits-IsDigit 20 l.node_id),
        split_dash-append (digits 20 l.index) _ (digits-IsDigit 20 l.index),
        split_dash-tail uniq key_num,
      )
      (keys_from-tail (some l) uniq key_num u k _ _ _ (
        log_id_from-some _ _ _ l.term l.node_id l.index (parse_u64-to_string l.term t)
          (parse_u64-to_string l.node_id n) (parse_u64-to_string l.index i)))

pub from_str-display : (id : MetaSnapshotId) → Fits id → from_str (display id) ≡ some id
unfolding display
from_str-display id (l, u, k) = read_parts id.last_applied id.uniq id.key_num l u k

>>=-eq-some :
    {A B : Type 0} (m : Option A) (f : A → Option B) {b : B}
    → (m >>= f) ≡ some b
    → (a : A) × (m ≡ some a) × (f a ≡ some b)
>>=-eq-some none f h = cc
>>=-eq-some (some a) f h = (a, refl, h)

some-inj : {A : Type 0} (P : A → Type 0) {a b : A} → some a ≡ some b → P a → P b
some-inj P {a} {b} e p = let same : a ≡ b = cc in subst P same p

log_id_from-Fits :
    (term node_id log_index : Text) (last : Option LogId)
    → log_id_from term node_id log_index ≡ some last
    → LogFits last
log_id_from-Fits [] [] [] last h = some-inj LogFits h tt
log_id_from-Fits [] [] (i ∷ is) last h = cc
log_id_from-Fits [] (n ∷ ns) log_index last h = cc
log_id_from-Fits (c ∷ cs) node_id log_index last h =
    let (t, ht, h1) = >>=-eq-some (parse_uint u64_mod (c ∷ cs)) _ h in
    let (n, hn, h2) = >>=-eq-some (parse_uint u64_mod node_id) _ h1 in
    let (i, hi, h3) = >>=-eq-some (parse_uint u64_mod log_index) _ h2 in
    some-inj LogFits h3 (
      parse_uint-lt u64_mod t (c ∷ cs) (omega arith) ht,
      parse_uint-lt u64_mod n node_id (omega arith) hn,
      parse_uint-lt u64_mod i log_index (omega arith) hi,
    )

key_num_from-lt : (num : Text) (n : ℕ) → key_num_from num ≡ some n → n < u64_mod
key_num_from-lt [] n h = cc
key_num_from-lt (c ∷ cs) n h = parse_uint-lt u64_mod n cs (omega arith) (ground arith)

keys_from-Fits :
    (segs : List Text) (key_num : Option ℕ) → keys_from segs ≡ some key_num → KeyFits key_num
keys_from-Fits [] key_num h = some-inj KeyFits h tt
keys_from-Fits (num ∷ []) key_num h =
    let (n, hn, h1) = >>=-eq-some (key_num_from num) _ h in
    some-inj KeyFits h1 (key_num_from-lt num n hn)
keys_from-Fits (num ∷ next ∷ segs) key_num h = cc

from_segs-Fits : (segs : List Text) (id : MetaSnapshotId) → from_segs segs ≡ some id → Fits id
from_segs-Fits [] id h = cc
from_segs-Fits (a ∷ []) id h = cc
from_segs-Fits (a ∷ b ∷ []) id h = cc
from_segs-Fits (a ∷ b ∷ c ∷ []) id h = cc
from_segs-Fits (a ∷ b ∷ c ∷ d ∷ segs) id h =
    let (last, hl, h1) = >>=-eq-some (log_id_from a b c) _ h in
    let (uniq, hu, h2) = >>=-eq-some (parse_uint u64_mod d) _ h1 in
    let (key_num, hk, h3) = >>=-eq-some (keys_from segs) _ h2 in
    some-inj Fits h3 (
      log_id_from-Fits a b c last hl,
      parse_uint-lt u64_mod uniq d (omega arith) hu,
      keys_from-Fits segs key_num hk,
    )

-- What a text is read as has `u64` numbers.
pub from_str-Fits : (s : Text) (id : MetaSnapshotId) → from_str s ≡ some id → Fits id
unfolding from_str
from_str-Fits s id h = from_segs-Fits (split_dash s) id h

-- Where the numbers of a snapshot id are `u64` values, it is read back from its print, and its print from the name of its file.
pub from_str-snapshot_fn :
    (id : MetaSnapshotId)
    → Fits id
    → (from_str (display id) ≡ some id)
      × (extract_snapshot_id_from_fn (snapshot_fn (display id)) ≡ some (display id))
from_str-snapshot_fn id h =
    (from_str-display id h, extract_snapshot_id_from_fn-snapshot_fn (display id))
