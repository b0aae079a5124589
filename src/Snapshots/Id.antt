-- ===== src/Snapshots/Id.antt =====
-- `MetaSnapshotId` of state_machine/snapshot_id.rs and the file names of snapshot_config.rs
use databend_meta.Common.{
  ℕ, Option, none, some, List, [], ◌∷◌, ◌++◌, Text, ◌==◌, if◌then◌else◌, option_map, text_eq,
}
use databend_meta.Common.Int.{u64_mod}
use databend_meta.Common.Decimal.{digits, parse_uint}
use databend_meta.Types.SysData.{LogId}

pub record MetaSnapshotId : Type 0 where
  pub last_applied : Option LogId
  pub uniq : ℕ
  pub key_num : Option ℕ

unfoldable pub new : Option LogId → ℕ → MetaSnapshotId
new last_applied uniq = record { last_applied = last_applied; uniq = uniq; key_num = none }

unfoldable pub with_key_num : MetaSnapshotId → Option ℕ → MetaSnapshotId
with_key_num id n = record id { key_num = n }

abbrev pub dash : ℕ
dash = b'-'

abbrev pub to_string : ℕ → Text
to_string n = digits 20 n

abbrev pub log_prefix : Option LogId → Text → Text
log_prefix none rest = dash ∷ dash ∷ dash ∷ rest
log_prefix (some l) rest =
    to_string l.term ++ dash ∷ (to_string l.node_id ++ dash ∷ (to_string l.index ++ dash ∷ rest))

abbrev pub key_suffix : Option ℕ → Text
key_suffix none = []
key_suffix (some n) = dash ∷ b'k' ∷ to_string n

-- `Display`
unfoldable pub display : MetaSnapshotId → Text
display id = log_prefix id.last_applied (to_string id.uniq ++ key_suffix id.key_num)

abbrev glue : ℕ → List Text → List Text
glue c [] = (c ∷ []) ∷ []
glue c (seg ∷ segs) = (c ∷ seg) ∷ segs

-- `split('-')`, which yields at least one segment
unfoldable pub split_dash : Text → List Text
split_dash [] = [] ∷ []
split_dash (c ∷ cs) = let rest = split_dash cs in if c == dash then [] ∷ rest else glue c rest

abbrev pub parse_u64 : Text → Option ℕ
parse_u64 s = parse_uint u64_mod s

infixl 5 ◌>>=◌
abbrev pub ◌>>=◌ : {A B : Type 0} → Option A → (A → Option B) → Option B
none >>= f = none
some a >>= f = f a

abbrev pub log_id_from : Text → Text → Text → Option (Option LogId)
log_id_from [] [] [] = some none
log_id_from [] node_id log_index = none
log_id_from (c ∷ cs) node_id log_index = do
  t ← parse_u64 (c ∷ cs)
  n ← parse_u64 node_id
  i ← parse_u64 log_index
  some (some (record { term = t; node_id = n; index = i }))

-- `strip_prefix('k')`, then the number
abbrev pub key_num_from : Text → Option ℕ
key_num_from [] = none
key_num_from (c ∷ cs) = if c == b'k' then parse_u64 cs else none

abbrev pub keys_from : List Text → Option (Option ℕ)
keys_from [] = some none
keys_from (num ∷ []) = key_num_from num >>= λ n. some (some n)
keys_from (num ∷ next ∷ segs) = none

abbrev pub from_segs : List Text → Option MetaSnapshotId
from_segs (term ∷ node_id ∷ log_index ∷ snapshot_index ∷ segs) = do
  last ← log_id_from term node_id log_index
  uniq ← parse_u64 snapshot_index
  key_num ← keys_from segs
  some (record { last_applied = last; uniq = uniq; key_num = key_num })
from_segs segs = none

-- `FromStr`; `none` is an error, whose message is left out.
unfoldable pub from_str : Text → Option MetaSnapshotId
from_str s = from_segs (split_dash s)

-- ".snap"
abbrev pub dot_snap : Text
dot_snap = b'.' ∷ b's' ∷ b'n' ∷ b'a' ∷ b'p' ∷ []

unfoldable pub snapshot_fn : Text → Text
snapshot_fn snapshot_id = snapshot_id ++ dot_snap

-- At the time `ts` in milliseconds, a `u128`
unfoldable pub temp_snapshot_id : ℕ → Text
temp_snapshot_id ts = (b'0' ∷ dot_snap) ++ dash ∷ digits 39 ts

-- `strip_suffix(".snap")`
unfoldable pub extract_snapshot_id_from_fn : Text → Option Text
extract_snapshot_id_from_fn [] = none
extract_snapshot_id_from_fn (c ∷ cs) =
    let rest = extract_snapshot_id_from_fn cs in
    if text_eq (c ∷ cs) dot_snap then some [] else option_map (λ s. c ∷ s) rest
