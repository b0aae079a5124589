-- ===== src/StateMachine/Memory.antt =====
-- A state machine in memory, which shows that the laws can hold together: an association list of texts
-- in ascending order for the keys, another list for the expiration index.
pub mod Lawful
use databend_meta.Common.{
  ℕ, ◌+◌, ◌*◌, Bool, true, false, ◌&&◌, ◌||◌, not, Option, none, some, List, [], ◌∷◌, ◌++◌, Text,
  Bytes, Result, ok, Action, IoStream, option_eq, option_map, is_none, ltb, leb, ◌==◌, text_eq,
  if◌then◌else◌, unwrap_or,
}
use databend_meta.Common.Int.{u64_mod, u64_max}
use databend_meta.Types.Interval.{Duration, duration_from_millis}
use databend_meta.Types.SeqV.{KvMeta, SeqV, meta_eq}
use databend_meta.Types.MetaSpec.{flexible_timestamp_to_duration}
use databend_meta.Types.Interval.{as_millis}
use databend_meta.Types.Upsert.{MatchSeq, any, exact, ge}
use databend_meta.Types.SysData.{SysData}
use databend_meta.Keys.Order.{text_ltb, is_text}
use databend_meta.Keys.Range.{in_range}
use databend_meta.StateMachine.Api.{StateMachineApi, MetaValue, ExpireKey, Event}

pub record Entry : Type 0 where
  pub seq : ℕ
  pub content : Option MetaValue

pub record Memory : Type 0 where
  pub entries : List (Text × Entry)
  pub index : List (ExpireKey × Option Text)
  pub last_seq : ℕ
  pub sys_data : SysData
  pub cleanup_start : Duration
  pub published : List Event

abbrev pub absent : Entry
absent = record { seq = 0; content = none }

unfoldable pub lookup : List (Text × Entry) → Text → Entry
lookup [] k = absent
lookup ((j, e) ∷ m) k = if text_eq j k then e else lookup m k

unfoldable pub put : List (Text × Entry) → Text → Entry → List (Text × Entry)
put [] k e = (k, e) ∷ []
put ((j, d) ∷ m) k e =
    if text_eq j k
    then (k, e) ∷ m
    else if text_ltb k j
    then (k, e) ∷ (j, d) ∷ m
    else (j, d) ∷ put m k e

abbrev pub seqv_of : Entry → Option (SeqV Bytes)
seqv_of e = option_map (λ d. record { seq = e.seq; meta = d.0; value = d.1 }) e.content

abbrev pub seq_of_entry : Entry → ℕ
seq_of_entry e = if is_none e.content then 0 else e.seq

abbrev written : Option MetaValue → ℕ → Entry
written none n = record { seq = n; content = none }
written (some v) n = record { seq = n + 1; content = some v }

abbrev numbered : Option MetaValue → ℕ → ℕ
numbered none n = n
numbered (some v) n = n + 1

unfoldable pub set_entry : Text → Option MetaValue → Action Memory (Entry × Entry)
unfolding lookup put
set_entry k v s = (
  ok (lookup s.entries k, written v s.last_seq),
  record s { entries = put s.entries k (written v s.last_seq); last_seq = numbered v s.last_seq },
)

-- the entries of a range
unfoldable pub scan :
    List (Text × Entry) → Text → Option Text → List (Text × Entry) → IoStream (Text × Entry)
unfolding in_range is_text lookup
scan all left right [] = []
scan all left right ((k, e) ∷ m) =
    let rest = scan all left right m in
    if is_text k && in_range left right k then ok (k, lookup all k) ∷ rest else rest

abbrev key_eq : ExpireKey → ExpireKey → Bool
key_eq a b = a.time_ms == b.time_ms && a.seq == b.seq

abbrev key_lt : ExpireKey → ExpireKey → Bool
key_lt a b = ltb a.time_ms b.time_ms || (a.time_ms == b.time_ms && ltb a.seq b.seq)

put_index :
    List (ExpireKey × Option Text) → ExpireKey → Option Text → List (ExpireKey × Option Text)
put_index [] k e = (k, e) ∷ []
put_index ((j, d) ∷ m) k e =
    if key_eq j k
    then (k, e) ∷ m
    else if key_lt k j
    then (k, e) ∷ (j, d) ∷ m
    else (j, d) ∷ put_index m k e

scan_index :
    List (ExpireKey × Option Text) → ExpireKey → ExpireKey → IoStream (ExpireKey × Option Text)
scan_index [] start end = []
scan_index ((k, e) ∷ m) start end =
    let rest = scan_index m start end in
    if not (key_lt k start) && key_lt k end then ok (k, e) ∷ rest else rest

abbrev expires : Option ℕ → ℕ
expires none = u64_max
expires (some t) = as_millis (flexible_timestamp_to_duration t)

abbrev entry_expires : Option MetaValue → Option ℕ
entry_expires none = none
entry_expires (some (none, v)) = none
entry_expires (some (some meta, v)) = option_map (λ t. expires (some t)) meta.expire_at

abbrev matches : MatchSeq → ℕ → Bool
matches any q = true
matches (exact n) q = n == q
matches (ge n) q = leb n q

abbrev read_number : Bytes → Option ℕ
read_number (n ∷ []) = if ltb n u64_mod then some n else none
read_number _ = none

abbrev data_eq : MetaValue → MetaValue → Bool
data_eq (m, v) (n, w) = option_eq meta_eq m n && text_eq v w

-- `meta.expires_at_ms()` and its like are instances that the laws allow.
unfoldable pub memory : StateMachineApi
unfolding set_entry scan put_index scan_index flexible_timestamp_to_duration
memory = record {
  Marked = Entry;
  MarkedText = Option Text;
  to_seqv = λ e. seqv_of e;
  seq = λ e. seq_of_entry e;
  internal_seq = λ e. e.seq;
  is_tombstone = λ e. is_none e.content;
  into_data = λ e. e.content;
  marked_eq = λ a b. a.seq == b.seq && option_eq data_eq a.content b.content;
  expires_at_ms_opt = λ e. entry_expires e.content;
  into_text = λ t. t;
  expires_at_ms = λ m. expires m.expire_at;
  match_seq = λ m q. matches m q;
  is_expired = λ k now. ltb k.time_ms now;
  expire_key_ge = λ a b. not (key_lt a b);
  read_u64 = λ b. read_number b;
  write_u64 = λ n. n ∷ [];
  State = Memory;
  get = λ k s. ok (lookup s.entries k);
  fetch_and_set = λ k v s. set_entry k v s;
  range = λ left right s. ok (scan s.entries left right s.entries);
  expire_set = λ e v s. record s { index = put_index s.index e v };
  expire_range = λ start end s. ok (scan_index s.index start end);
  sys_data = λ s. s.sys_data;
  put_sys_data = λ d s. record s { sys_data = d };
  cleanup_start = λ s. s.cleanup_start;
  set_cleanup_start = λ d s. record s { cleanup_start = d };
  on_change_applied = λ e s. record s { published = s.published ++ e ∷ [] };
}
