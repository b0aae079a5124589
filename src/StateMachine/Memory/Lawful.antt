-- ===== src/StateMachine/Memory/Lawful.antt =====
-- The state machine in memory keeps the laws.
use databend_meta.Common.{
  ℕ, ◌<◌, ◌≡◌, ◌≢◌, ◌∙◌, refl, sym, subst, ap, arith, Bool, true, false, ◌&&◌, Option, none, some,
  List, [], ◌∷◌, Text, Bytes, Result, ok, IoStream, no_error, Has, text_eq, text_eq_iff,
  text_eq_sound, text_eq_refl, if◌then◌else◌, Bool-cases, inl, inr,
}
use databend_meta.Common.Int.{u64_mod}
use databend_meta.Types.SeqV.{SeqV}
use databend_meta.Keys.Order.{is_text}
use databend_meta.Keys.Range.{in_range}
use databend_meta.StateMachine.Api.{MetaValue}
use databend_meta.StateMachine.Laws.{ValueLaws, MapLaws, SystemLaws, RangeLaws}
use databend_meta.StateMachine.Memory.{
  Entry, Memory, lookup, put, set_entry, scan, seqv_of, memory, written, numbered, read_number,
}

read_number-lt : (b : Bytes) (n : ℕ) → read_number b ≡ some n → n < u64_mod
read_number-lt [] n h = cc
read_number-lt (x ∷ []) n h = ground arith
read_number-lt (x ∷ y ∷ b) n h = cc

pub memory_values : ValueLaws memory
unfolding memory
memory_values = record {
  seq_lem = λ m. ground arith;
  is_tombstone_lem = λ m. ground arith;
  into_data_lem = λ m. ground arith;
  match_any = λ n. refl;
  match_exact = λ n q. refl;
  match_ge = λ n q. refl;
  is_expired_lem = λ k now. refl;
  never_expires = λ p. refl;
  read-write_u64 = λ n h. ground arith;
  read_u64_lt = read_number-lt;
}

lookup-put :
    (m : List (Text × Entry)) (k j : Text) (e : Entry)
    → lookup (put m k e) j ≡ (if text_eq k j then e else lookup m j)
unfolding lookup put
lookup-put [] k j e = refl
lookup-put ((i, d) ∷ m) k j e =
    ground (arith, lookup-put m k j e, text_eq_iff i k, text_eq_iff i j, text_eq_iff k j)

set_entry-ok :
    (k : Text) (v : Option MetaValue) (s s' : Memory) (p r : Entry)
    → set_entry k v s ≡ (ok (p, r), s')
    → (lookup s.entries k ≡ p)
      × (written v s.last_seq ≡ r)
      × (put s.entries k (written v s.last_seq) ≡ s'.entries)
      × (numbered v s.last_seq ≡ s'.last_seq)
unfolding set_entry
set_entry-ok k v s s' p r h =
    let value : ◌≡◌ {A = Result (Entry × Entry)} (ok (lookup s.entries k, written v s.last_seq))
        (ok (p, r)) =
      ap (λ (q : Result (Entry × Entry) × Memory). q.0) h in
    (
      cc,
      cc,
      ap (λ (q : Result (Entry × Entry) × Memory). q.1.entries) h,
      ap (λ (q : Result (Entry × Entry) × Memory). q.1.last_seq) h,
    )

self :
    (k : Text) (v : Option MetaValue) (s s' : Memory) (p r : Entry)
    → set_entry k v s ≡ (ok (p, r), s')
    → lookup s'.entries k ≡ r
self k v s s' p r h =
    let (before, after, entries, last) = set_entry-ok k v s s' p r h in
    ap (λ m. lookup m k) (sym entries)
    ∙ lookup-put s.entries k k (written v s.last_seq)
    ∙ rw (text_eq_refl k) after

other :
    (k : Text) (v : Option MetaValue) (s s' : Memory) (p r : Entry) (j : Text)
    → set_entry k v s ≡ (ok (p, r), s')
    → j ≢ k
    → lookup s'.entries j ≡ lookup s.entries j
other k v s s' p r j h n =
    let (before, after, entries, last) = set_entry-ok k v s s' p r h in
    ap (λ m. lookup m j) (sym entries)
    ∙ lookup-put s.entries k j (written v s.last_seq)
    ∙ elim (Bool-cases (text_eq k j)) [
      | inl e ↦ absurd (n (sym (text_eq_sound k j e)))
      | inr e ↦ rw e
    ]

pub memory_map : MapLaws memory
unfolding memory
memory_map = record {
  last_seq = λ s. s.last_seq;
  get_prev = λ k v s s' p r h. ap (λ x. ok x) (set_entry-ok k v s s' p r h).0;
  get_self = λ k v s s' p r h. ap (λ x. ok x) (self k v s s' p r h);
  get_other = λ k v s s' p r j h n. ap (λ x. ok x) (other k v s s' p r j h n);
  value_set = λ k v s s' p r h. ap seqv_of (sym (set_entry-ok k (some v) s s' p r h).1);
  value_deleted = λ k s s' p r h. ap seqv_of (sym (set_entry-ok k none s s' p r h).1);
  last_seq_set = λ k v s s' p r h. sym (set_entry-ok k (some v) s s' p r h).3;
  last_seq_deleted = λ k s s' p r h. sym (set_entry-ok k none s s' p r h).3;
  get-expire_set = λ e v s k. refl;
  last_seq-expire_set = λ e v s. refl;
  last_seq-put_sys_data = λ d s. refl;
  last_seq-set_cleanup_start = λ d s. refl;
  last_seq-on_change = λ e s. refl;
}

unfoldable pub memory_system : SystemLaws memory
unfolding memory
memory_system = record {
  sys_data-put = λ d s. refl;
  published = λ s. s.published;
  published-on_change = λ e s. refl;
  published-put_sys_data = λ d s. refl;
  published-fetch_and_set = λ k v s. refl;
  published-expire_set = λ e v s. refl;
  published-set_cleanup_start = λ d s. refl;
  get-set_cleanup_start = λ d s k. refl;
  get-put_sys_data = λ d s k. refl;
  sys_data-fetch_and_set = λ k v s. refl;
  sys_data-expire_set = λ e v s. refl;
  sys_data-set_cleanup_start = λ d s. refl;
  sys_data-on_change = λ e s. refl;
  get-on_change = λ e s k. refl;
}

and_parts : (b c : Bool) → (b && c) ≡ true → (b ≡ true) × (c ≡ true)
and_parts b c h = ground arith

scan_sound :
    (all m : List (Text × Entry)) (left : Text) (right : Option Text) (k : Text) (e : Entry)
    → Has (ok (k, e)) (scan all left right m)
    → (is_text k ≡ true) × (in_range left right k ≡ true) × (lookup all k ≡ e)
unfolding scan
scan_sound all [] left right k e h = absurd h
scan_sound all ((j, d) ∷ m) left right k e h =
    elim (Bool-cases (is_text j && in_range left right j)) [
      | inl inside ↦ elim (rw inside at h) [
        | inl same ↦
            let pair : ◌≡◌ {A = Text × Entry} (k, e) (j, lookup all j) = cc in
            let key : k ≡ j = ap (λ (q : Text × Entry). q.0) pair in
            let (valid, within) = and_parts (is_text j) (in_range left right j) inside in
            (
              ap is_text key ∙ valid,
              ap (in_range left right) key ∙ within,
              ap (lookup all) key ∙ sym (ap (λ (q : Text × Entry). q.1) pair),
            )
        | inr later ↦ scan_sound all m left right k e later
      ]
      | inr outside ↦ scan_sound all m left right k e (rw outside at h)
    ]

kept :
    (b : Bool) (y x : Text × Entry) (rest : IoStream (Text × Entry))
    → Has (ok x) rest
    → Has (ok x) (if b then ok y ∷ rest else rest)
kept true y x rest h = inr h
kept false y x rest h = h

scan_complete :
    (all m : List (Text × Entry)) (left : Text) (right : Option Text) (k : Text) (v : SeqV Bytes)
    → is_text k ≡ true
    → in_range left right k ≡ true
    → seqv_of (lookup m k) ≡ some v
    → Has (ok (k, lookup all k)) (scan all left right m)
unfolding scan lookup
scan_complete all [] left right k v valid inside h = cc
scan_complete all ((j, d) ∷ m) left right k v valid inside h = elim (Bool-cases (text_eq j k)) [
  | inl same ↦
      let key : j ≡ k = text_eq_sound j k same in
      rw (subst (λ t. (is_text t && in_range left right t) ≡ true) (sym key) (rw (valid, inside))) (
        inl (
          subst (λ t. ◌≡◌ {A = Result (Text × Entry)} (ok (k, lookup all k)) (ok (t, lookup all t)))
            (sym key) refl))
  | inr differs ↦
      kept (is_text j && in_range left right j) (j, lookup all j) (k, lookup all k)
        (scan all left right m) (scan_complete all m left right k v valid inside (rw differs at h))
]

scanned :
    (left : Text) (right : Option Text) (s : Memory) (strm : IoStream (Text × Entry)) (k : Text)
    (m : Entry)
    → ◌≡◌ {A = Result (IoStream (Text × Entry))}
        (ok (scan s.entries left right s.entries))
        (ok strm)
    → Has (ok (k, m)) strm
    → (is_text k ≡ true)
      × (in_range left right k ≡ true)
      × (◌≡◌ {A = Result Entry} (ok (lookup s.entries k)) (ok m))
scanned left right s strm k m e h =
    let same : strm ≡ scan s.entries left right s.entries = cc in
    let (valid, inside, read) =
      scan_sound s.entries s.entries left right k m (subst (λ l. Has (ok (k, m)) l) same h) in
    (valid, inside, ap (λ x. ok x) read)

listed :
    (left : Text) (right : Option Text) (s : Memory) (strm : IoStream (Text × Entry)) (k : Text)
    (m : Entry) (v : SeqV Bytes)
    → ◌≡◌ {A = Result (IoStream (Text × Entry))}
        (ok (scan s.entries left right s.entries))
        (ok strm)
    → is_text k ≡ true
    → in_range left right k ≡ true
    → ◌≡◌ {A = Result Entry} (ok (lookup s.entries k)) (ok m)
    → seqv_of m ≡ some v
    → Has (ok (k, m)) strm
listed left right s strm k m v e valid inside read value =
    let same : scan s.entries left right s.entries ≡ strm = cc in
    let found : lookup s.entries k ≡ m = cc in
    subst (λ l. Has (ok (k, m)) l) same
      (subst (λ x. Has (ok (k, x)) (scan s.entries left right s.entries)) found
        (scan_complete s.entries s.entries left right k v valid inside (ap seqv_of found ∙ value)))

pub memory_range : RangeLaws memory
unfolding memory
memory_range = record {
  range_sound = λ left right s strm k m e h. scanned left right s strm k m e h;
  range_complete = λ left right s strm k m v e clean valid inside read value.
      listed left right s strm k m v e valid inside read value;
}

-- A scan yields no error.
pub no_error-scan :
    (all m : List (Text × Entry)) (left : Text) (right : Option Text)
    → no_error (scan all left right m) ≡ true
unfolding scan
no_error-scan all [] left right = refl
no_error-scan all ((k, e) ∷ m) left right = ground (arith, no_error-scan all m left right)
