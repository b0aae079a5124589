-- ===== src/Examples/Snapshots.antt =====
-- A directory with four snapshots, a file with an invalid id and a temporary file; its file system makes no errors.
use Prim.Native.Nat.{Ordering}
use databend_meta.Common.{
  ℕ, Bool, true, not, ◌&&◌, text_eq, text_eq_iff, ◌≡◌, ◌≢◌, ◌↔◌, ◌⊎◌, refl, sym, ap, ◌∙◌, none,
  some, [], ◌∷◌, Text, All, Has, ok, arith, no_error, inl, inr, IoStream, Option,
}
use databend_meta.Common.Maps.{remove_text, contains}
use databend_meta.Common.Decimal.{digits, parse_uint}
use databend_meta.Common.Sort.{IsOrder, Distinct, sort}
use databend_meta.Types.SysData.{LogId}
use databend_meta.Snapshots.Id.{
  MetaSnapshotId, new, with_key_num, display, from_str, split_dash, snapshot_fn,
  extract_snapshot_id_from_fn, temp_snapshot_id,
}
use databend_meta.Snapshots.Order.{id_cmp, text_cmp, text_cmp-IsOrder}
use databend_meta.Snapshots.RoundTrip.{from_str-snapshot_fn}
use databend_meta.Snapshots.Loader.{
  Dir, FileSystem, Found, snapshot, invalid_file, other, found, collect, file_name, remove_all,
  load_snapshot, load_snapshot_ids, load_last_snapshot, clean_old_snapshots,
}
use databend_meta.Snapshots.Listed.{Reliable}
use databend_meta.Snapshots.Gather.{names, Canonical}
use databend_meta.Snapshots.Left.{latest_ids, latest_names}
use databend_meta.Snapshots.Store.{
  new_receiver, move_to_final_path, Reached, empty, next, received, moved,
}
use databend_meta.Snapshots.Reached.{Stored, Reached-Stored}
use databend_meta.Snapshots.Loaded.{load_last_snapshot_lem}
use databend_meta.Snapshots.Kept.{
  clean_old_snapshots-load_snapshot_ids, clean_old_snapshots-load_last_snapshot,
  clean_old_snapshots-temp_snapshot_id,
}

abbrev numbers : LogId → Text
numbers l = l.term ∷ l.node_id ∷ l.index ∷ []

-- By term, then node, then index
abbrev log_cmp : LogId → LogId → Ordering
log_cmp a b = text_cmp (numbers a) (numbers b)

log_cmp_eq : (a b : LogId) → log_cmp a b ≡ Ordering.eq → a ≡ b
log_cmp_eq a b h =
    let e = text_cmp-IsOrder.eq (numbers a) (numbers b) h in
    let t : a.term ≡ b.term = cc in
    let n : a.node_id ≡ b.node_id = cc in
    let x : a.index ≡ b.index = cc in λ i. record { term = t i; node_id = n i; index = x i }

log_cmp-IsOrder : IsOrder log_cmp
log_cmp-IsOrder = record {
  self = λ a. text_cmp-IsOrder.self (numbers a);
  eq = log_cmp_eq;
  swap = λ a b. text_cmp-IsOrder.swap (numbers a) (numbers b);
  trans = λ a b c. text_cmp-IsOrder.trans (numbers a) (numbers b) (numbers c);
}

abbrev listing : Dir → IoStream (Option Text)
listing [] = []
listing (name ∷ d) = ok (some name) ∷ listing d

abbrev files : FileSystem Text
files = record {
  ensure_snapshot_dir = λ d. ok tt;
  entries = listing;
  remove_fault = λ name d. none;
  create_fault = λ name d. none;
  rename_fault = λ from to d. none;
  open_snapshot = λ name id d. ok id;
}

listing-no_error : (d : Dir) → no_error (listing d) ≡ true
listing-no_error [] = refl
listing-no_error (name ∷ d) = listing-no_error d

names-listing : (d : Dir) → names (listing d) ≡ d
names-listing [] = refl
names-listing (name ∷ d) = ap (λ ns. name ∷ ns) (names-listing d)

files-Reliable : Reliable files
files-Reliable = record {
  ready = λ d. refl;
  readable = listing-no_error;
  listed = λ d name. rw (names-listing d) (λ h. h, λ h. h);
  opened = λ name id d d' h k. refl;
  once = λ d one. rw (names-listing d) one;
}

abbrev log : ℕ → LogId
log index = record { term = 1; node_id = 8; index = index }

abbrev id_a : MetaSnapshotId
unfolding new
id_a = new none 1

abbrev id_b : MetaSnapshotId
unfolding new
id_b = new (some (log 2)) 5

abbrev id_c : MetaSnapshotId
unfolding new
id_c = new (some (log 9)) 6

abbrev id_d : MetaSnapshotId
unfolding new with_key_num
id_d = with_key_num (new (some (log 10)) 7) (some 3)

-- "x.snap"
abbrev strange : Text
strange = b'x' ∷ b'.' ∷ b's' ∷ b'n' ∷ b'a' ∷ b'p' ∷ []

abbrev rest : Dir
rest = temp_snapshot_id 7 ∷ file_name id_d ∷ file_name id_b ∷ []

abbrev dir : Dir
dir = file_name id_c ∷ strange ∷ file_name id_a ∷ rest

-- Without the oldest snapshot
abbrev cleaned_dir : Dir
cleaned_dir = file_name id_c ∷ strange ∷ rest

apart : Text → Dir → Bool
apart n [] = true
apart n (m ∷ d) = not (text_eq n m) && apart n d

all_ne : Dir → Bool
unfolding apart
all_ne [] = true
all_ne (n ∷ d) = apart n d && all_ne d

All-apart : (n : Text) (d : Dir) → apart n d ≡ true → All (λ m. n ≢ m) d
unfolding apart
All-apart n [] h = tt
All-apart n (m ∷ d) h =
    ((λ same. let e = (text_eq_iff n m).1 same in ground arith), All-apart n d (ground arith))

Distinct-all_ne : (d : Dir) → all_ne d ≡ true → Distinct d
unfolding all_ne
Distinct-all_ne [] h = tt
Distinct-all_ne (n ∷ d) h = (All-apart n d (ground arith), Distinct-all_ne d (ground arith))

Canonical-snapshot :
    (id : MetaSnapshotId) (d : Dir)
    → found (file_name id) ≡ snapshot id
    → Canonical d
    → Canonical (file_name id ∷ d)
Canonical-snapshot id d e c name j (inl h) read = let same : id ≡ j = cc in h ∙ ap file_name same
Canonical-snapshot id d e c name j (inr h) read = c name j h read

Canonical-other :
    (n : Text) (d : Dir) (f : Found)
    → found n ≡ f
    → ((j : MetaSnapshotId) → f ≡ snapshot j → ⊥)
    → Canonical d
    → Canonical (n ∷ d)
Canonical-other n d f e no_snapshot c name j (inl h) read =
    absurd (no_snapshot j (sym e ∙ ap found (sym h) ∙ read))
Canonical-other n d f e no_snapshot c name j (inr h) read = c name j h read

read_a : found (file_name id_a) ≡ snapshot id_a
unfolding file_name found digits from_str split_dash parse_uint text_eq extract_snapshot_id_from_fn
    id_a id_d temp_snapshot_id
read_a = refl

dir-Canonical : Canonical dir
unfolding file_name found digits from_str split_dash parse_uint text_eq extract_snapshot_id_from_fn
    id_a id_d temp_snapshot_id
dir-Canonical = Canonical-snapshot id_c (strange ∷ file_name id_a ∷ rest) refl (
    Canonical-other strange (file_name id_a ∷ rest) invalid_file refl (λ j. cc)
      (Canonical-snapshot id_a rest refl (
        Canonical-other (temp_snapshot_id 7) (file_name id_d ∷ file_name id_b ∷ []) other refl
          (λ j. cc)
          (Canonical-snapshot id_d (file_name id_b ∷ []) refl
            (Canonical-snapshot id_b [] refl λ name id h. absurd h)))))

dir-Distinct : Distinct dir
unfolding file_name digits text_eq all_ne id_a id_d temp_snapshot_id
dir-Distinct = Distinct-all_ne dir refl

cleaned : clean_old_snapshots log_cmp files dir ≡ (ok tt, cleaned_dir)
unfolding file_name found digits from_str split_dash parse_uint text_eq extract_snapshot_id_from_fn
    id_a id_d temp_snapshot_id clean_old_snapshots load_snapshot_ids collect sort id_cmp text_cmp
    remove_all remove_text
cleaned = refl

ids_loaded : load_snapshot_ids log_cmp files dir ≡ ok (id_a ∷ id_b ∷ id_c ∷ id_d ∷ [], strange ∷ [])
unfolding file_name found digits from_str split_dash parse_uint text_eq extract_snapshot_id_from_fn
    id_a id_d temp_snapshot_id clean_old_snapshots load_snapshot_ids collect sort id_cmp text_cmp
    remove_all remove_text
ids_loaded = refl

last_loaded : load_last_snapshot log_cmp files dir ≡ ok (some (id_d, display id_d))
unfolding file_name found digits from_str split_dash parse_uint text_eq extract_snapshot_id_from_fn
    id_a id_d temp_snapshot_id clean_old_snapshots load_snapshot_ids collect sort id_cmp text_cmp
    remove_all remove_text load_last_snapshot load_snapshot
last_loaded = refl

from_str-snapshot_fn_example :
    (from_str (display id_d) ≡ some id_d)
    × (extract_snapshot_id_from_fn (snapshot_fn (display id_d)) ≡ some (display id_d))
unfolding id_d
from_str-snapshot_fn_example =
    from_str-snapshot_fn id_d ((omega arith, omega arith, omega arith), omega arith, omega arith)

clean_old_snapshots-load_snapshot_ids_example :
    load_snapshot_ids log_cmp files cleaned_dir
    ≡ ok (latest_ids (id_a ∷ id_b ∷ id_c ∷ id_d ∷ []), latest_names (strange ∷ []))
clean_old_snapshots-load_snapshot_ids_example =
    clean_old_snapshots-load_snapshot_ids log_cmp log_cmp-IsOrder files files-Reliable dir
      cleaned_dir (id_a ∷ id_b ∷ id_c ∷ id_d ∷ []) (strange ∷ []) dir-Distinct dir-Canonical
      ids_loaded cleaned

clean_old_snapshots-load_last_snapshot_example :
    load_last_snapshot log_cmp files cleaned_dir ≡ load_last_snapshot log_cmp files dir
clean_old_snapshots-load_last_snapshot_example =
    clean_old_snapshots-load_last_snapshot log_cmp log_cmp-IsOrder files files-Reliable dir
      cleaned_dir (ok tt) dir-Distinct dir-Canonical cleaned

clean_old_snapshots-temp_snapshot_id_example :
    All (λ name. Has name dir) cleaned_dir
    × (Has (temp_snapshot_id 7) cleaned_dir ↔ Has (temp_snapshot_id 7) dir)
clean_old_snapshots-temp_snapshot_id_example =
    clean_old_snapshots-temp_snapshot_id log_cmp log_cmp-IsOrder files files-Reliable dir
      cleaned_dir (ok tt) 7 dir-Distinct dir-Canonical cleaned

load_last_snapshot_lem_example :
    Has (file_name id_d) dir
    × ((files.open_snapshot (file_name id_d) (display id_d) dir ≡ ok (display id_d))
        × ((id_a ≡ id_d) ⊎ (id_cmp log_cmp id_a id_d ≡ Ordering.lt)))
load_last_snapshot_lem_example =
    load_last_snapshot_lem log_cmp log_cmp-IsOrder files files-Reliable dir id_d id_a (display id_d)
      (file_name id_a) dir-Distinct dir-Canonical last_loaded (inr (inr (inl refl))) read_a

-- A snapshot is received and named.
received_dir : Reached files log_cmp (temp_snapshot_id 7 ∷ [])
unfolding new_receiver contains
received_dir = next empty (received 7 refl)

named_dir : Reached files log_cmp (file_name id_d ∷ [])
unfolding move_to_final_path contains remove_text text_eq digits temp_snapshot_id file_name id_d
named_dir = next received_dir (
    moved (temp_snapshot_id 7) id_d
      ((omega arith, omega arith, omega arith), omega arith, omega arith) refl)

Reached-Stored_example : Stored (file_name id_d ∷ [])
Reached-Stored_example = Reached-Stored files log_cmp (file_name id_d ∷ []) named_dir
