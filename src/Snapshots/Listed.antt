-- ===== src/Snapshots/Listed.antt =====
-- What `load_snapshot_ids` finds in a directory that can be listed, and what its removals leave.
use Prim.Native.Nat.{Ordering}
use databend_meta.Common.{◌≡◌, ◌↔◌, sym, true, List, Text, Has, ok, no_error}
use databend_meta.Common.Sort.{IsOrder, Distinct, sort, Ascending}
use databend_meta.Common.Sorted.{Has-sort, sort-Has, sort-Ascending}
use databend_meta.Types.SysData.{LogId}
use databend_meta.Snapshots.Id.{MetaSnapshotId}
use databend_meta.Snapshots.Order.{id_cmp, text_cmp, id_cmp-IsOrder, text_cmp-IsOrder}
use databend_meta.Snapshots.Loader.{
  Dir, FileSystem, snapshot, invalid_file, found, file_name, load_snapshot_ids,
}
use databend_meta.Snapshots.Gather.{
  names, Canonical, gather, collect-gather, found-Fits, found-file_name, gather_ids, ids-gather,
  gather_invalid, invalid-gather, gather-Distinct,
}

-- Every directory can be listed, each file once, in any order; and a file that is in two directories is opened alike.
pub record Reliable {SD : Type 0} (fs : FileSystem SD) : Type 0 where
  pub ready : (d : Dir) → fs.ensure_snapshot_dir d ≡ ok tt
  pub readable : (d : Dir) → no_error (fs.entries d) ≡ true
  pub listed : (d : Dir) (name : Text) → Has name (names (fs.entries d)) ↔ Has name d
  pub opened :
      (name id : Text) (d d' : Dir)
      → Has name d
      → Has name d'
      → fs.open_snapshot name id d ≡ fs.open_snapshot name id d'
  pub once : (d : Dir) → Distinct d → Distinct (names (fs.entries d))

-- The ids and the names of invalid files that are listed
abbrev pub ids_in :
    (LogId → LogId → Ordering) → {SD : Type 0} → FileSystem SD → Dir → List MetaSnapshotId
ids_in log_cmp fs d = sort (id_cmp log_cmp) (gather (names (fs.entries d))).0

abbrev pub invalid_in : {SD : Type 0} → FileSystem SD → Dir → List Text
invalid_in fs d = sort text_cmp (gather (names (fs.entries d))).1

module _ (log_cmp : LogId → LogId → Ordering) (laws : IsOrder log_cmp) {SD : Type 0}
    (fs : FileSystem SD) (reliable : Reliable fs) where
  pub load_snapshot_ids_lem :
      (d : Dir) → load_snapshot_ids log_cmp fs d ≡ ok (ids_in log_cmp fs d, invalid_in fs d)
  unfolding load_snapshot_ids
  load_snapshot_ids_lem d =
      rw (reliable.ready d, collect-gather (fs.entries d) (reliable.readable d))

  module _ (d : Dir) (one : Distinct d) (canonical : Canonical d) where
    listed-Canonical : Canonical (names (fs.entries d))
    listed-Canonical name id m = canonical name id ((reliable.listed d name).0 m)

    lists_once :
        Distinct (gather (names (fs.entries d))).0 × Distinct (gather (names (fs.entries d))).1
    lists_once = gather-Distinct (names (fs.entries d)) (reliable.once d one) listed-Canonical

    pub ids_in-Ascending : Ascending (id_cmp log_cmp) (ids_in log_cmp fs d)
    ids_in-Ascending = sort-Ascending (id_cmp log_cmp) (id_cmp-IsOrder log_cmp laws) _ lists_once.0

    pub invalid_in-Ascending : Ascending text_cmp (invalid_in fs d)
    invalid_in-Ascending = sort-Ascending text_cmp text_cmp-IsOrder _ lists_once.1

    pub ids_in-file_name :
        (id : MetaSnapshotId)
        → Has id (ids_in log_cmp fs d)
        → Has (file_name id) d × (found (file_name id) ≡ snapshot id)
    ids_in-file_name id h =
        let (name, at, read) =
          gather_ids (names (fs.entries d)) id (Has-sort (id_cmp log_cmp) _ id h) in
        let here = (reliable.listed d name).0 at in
        let same = canonical name id here read in
        (rw (sym same) here, found-file_name id (found-Fits name id read))

  pub found-ids_in :
      (d : Dir) (name : Text) (id : MetaSnapshotId)
      → Has name d
      → found name ≡ snapshot id
      → Has id (ids_in log_cmp fs d)
  found-ids_in d name id h e =
      sort-Has (id_cmp log_cmp) _ id (ids-gather _ name id ((reliable.listed d name).1 h) e)

  pub invalid_in-found :
      (d : Dir) (name : Text)
      → Has name (invalid_in fs d)
      → Has name d × (found name ≡ invalid_file)
  invalid_in-found d name h =
      let (at, e) = gather_invalid _ name (Has-sort text_cmp _ name h) in
      ((reliable.listed d name).0 at, e)

  pub found-invalid_in :
      (d : Dir) (name : Text) → Has name d → found name ≡ invalid_file → Has name (invalid_in fs d)
  found-invalid_in d name h e =
      sort-Has text_cmp _ name (invalid-gather _ name ((reliable.listed d name).1 h) e)
