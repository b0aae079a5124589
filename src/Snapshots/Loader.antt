-- ===== src/Snapshots/Loader.antt =====
-- `SnapshotLoader` of sm_v003/snapshot_loader.rs. A directory is the list of the names of its files; its calls of the file
-- system may fail, and a file that is removed is gone.
use Prim.Native.Nat.{Ordering}
use databend_meta.Common.{
  ◌-◌, Option, none, some, List, [], ◌∷◌, map, Text, ltb, leb, if◌then◌else◌, length, take, Result,
  ok, err, IoError, IoStream, Action, ◌>>=◌, and_then, with_read,
}
use databend_meta.Common.Maps.{remove_text}
use databend_meta.Common.Sort.{sort, last}
use databend_meta.Types.SysData.{LogId}
use databend_meta.Snapshots.Id.{
  MetaSnapshotId, display, from_str, snapshot_fn, extract_snapshot_id_from_fn,
}
use databend_meta.Snapshots.Order.{id_cmp, text_cmp}

abbrev pub Dir : Type 0
Dir = List Text

-- How the calls on a directory end: `entries` are those of `read_dir` up to an error, `none` for a name that is no
-- UTF-8; a fault is the error of a call, if any; `open_snapshot` takes the name of a file and an id.
pub record FileSystem (SD : Type 0) : Type 0 where
  pub ensure_snapshot_dir : Dir → Result (Unit {0})
  pub entries : Dir → IoStream (Option Text)
  pub remove_fault : Text → Dir → Option IoError
  pub create_fault : Text → Dir → Option IoError
  pub rename_fault : Text → Text → Dir → Option IoError
  pub open_snapshot : Text → Text → Dir → Result SD

pub data Found : Type 0 where
  snapshot : MetaSnapshotId → Found
  invalid_file : Found
  other : Found

abbrev pub classified : Option MetaSnapshotId → Found
classified none = invalid_file
classified (some id) = snapshot id

abbrev pub found_id : Option Text → Found
found_id none = other
found_id (some snapshot_id) = classified (from_str snapshot_id)

unfoldable pub found : Text → Found
found name = found_id (extract_snapshot_id_from_fn name)

abbrev pub add_found :
    Text → Found → List MetaSnapshotId × List Text → List MetaSnapshotId × List Text
add_found name (snapshot id) (ids, invalid) = (id ∷ ids, invalid)
add_found name invalid_file (ids, invalid) = (ids, name ∷ invalid)
add_found name other r = r

-- The loop over the entries
unfoldable pub collect : IoStream (Option Text) → Result (List MetaSnapshotId × List Text)
unfolding found
collect [] = ok ([], [])
collect (err e ∷ strm) = err e
collect (ok none ∷ strm) = collect strm
collect (ok (some name) ∷ strm) = collect strm >>= λ r. ok (add_found name (found name) r)

unfoldable pub file_name : MetaSnapshotId → Text
unfolding display snapshot_fn
file_name id = snapshot_fn (display id)

-- All but the last two
abbrev pub old_files : List Text → List Text
old_files invalid = if ltb 2 (length invalid) then take (length invalid - 2) invalid else []

abbrev pub sorted :
    (LogId → LogId → Ordering) → List MetaSnapshotId × List Text → List MetaSnapshotId × List Text
sorted log_cmp (ids, invalid) = (sort (id_cmp log_cmp) ids, sort text_cmp invalid)

module _ {SD : Type 0} (fs : FileSystem SD) where
  unfoldable pub load_snapshot : Text → Dir → Result SD
  load_snapshot snapshot_id d =
      fs.ensure_snapshot_dir d >>= λ _. fs.open_snapshot (snapshot_fn snapshot_id) snapshot_id d

  abbrev pub load_id : Option MetaSnapshotId → Dir → Result (Option (MetaSnapshotId × SD))
  load_id none d = ok none
  load_id (some id) d =
      load_snapshot (display id) d >>= λ snapshot_data. ok (some (id, snapshot_data))

  unfoldable pub remove_file : Text → Action Dir (Unit {0})
  remove_file name d = elim (fs.remove_fault name d) [
    | none ↦ (ok tt, remove_text d name)
    | some e ↦ (err e, d)
  ]

  unfoldable pub remove_all : List Text → Action Dir (Unit {0})
  unfolding remove_file
  remove_all [] d = (ok tt, d)
  remove_all (name ∷ names) d = and_then (remove_file name d) λ _ d'. remove_all names d'

  -- The last three stay.
  abbrev pub clean_ids : List MetaSnapshotId → Action Dir (Unit {0})
  clean_ids ids d =
      if leb (length ids) 3
      then (ok tt, d)
      else remove_all (map file_name (take (length ids - 3) ids)) d

module _ (log_cmp : LogId → LogId → Ordering) {SD : Type 0} (fs : FileSystem SD) where
  unfoldable pub load_snapshot_ids : Dir → Result (List MetaSnapshotId × List Text)
  load_snapshot_ids d =
      fs.ensure_snapshot_dir d >>= λ _. collect (fs.entries d) >>= λ r. ok (sorted log_cmp r)

  unfoldable pub load_last_snapshot : Dir → Result (Option (MetaSnapshotId × SD))
  load_last_snapshot d = load_snapshot_ids d >>= λ r. load_id fs (last r.0) d

  unfoldable pub clean_old_snapshots : Action Dir (Unit {0})
  clean_old_snapshots d =
      with_read (fs.ensure_snapshot_dir d)
        (λ _.
          with_read (load_snapshot_ids d)
            λ r s. and_then (remove_all fs (old_files r.1) s) λ _ s'. clean_ids fs r.0 s')
        d
