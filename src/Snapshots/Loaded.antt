-- ===== src/Snapshots/Loaded.antt =====
-- Which snapshot `load_last_snapshot` loads.
use Prim.Native.Nat.{Ordering}
use databend_meta.Common.{
  ◌≡◌, ◌⊎◌, ◌∙◌, sym, ap, subst, Option, none, some, Text, Has, Result, ok, err, ◌>>=◌,
}
use databend_meta.Common.Sort.{IsOrder, Distinct, last, last-Has}
use databend_meta.Common.Sorted.{last-max}
use databend_meta.Types.SysData.{LogId}
use databend_meta.Snapshots.Id.{MetaSnapshotId, display, snapshot_fn}
use databend_meta.Snapshots.Order.{id_cmp, id_cmp-IsOrder}
use databend_meta.Snapshots.Loader.{
  Dir, FileSystem, snapshot, found, file_name, load_snapshot, load_id, load_last_snapshot,
}
use databend_meta.Snapshots.Listed.{
  Reliable, ids_in, load_snapshot_ids_lem, ids_in-Ascending, ids_in-file_name, found-ids_in,
}
use databend_meta.Snapshots.Gather.{Canonical}

opened :
    {A : Type 0} (r : Result A) (m id : MetaSnapshotId) (a : A)
    → ◌>>=◌ {B = Option (MetaSnapshotId × A)} r (λ x. ok (some (m, x))) ≡ ok (some (id, a))
    → (m ≡ id) × (r ≡ ok a)
opened (ok x) m id a h = (cc, cc)
opened (err e) m id a h = cc

module _ (log_cmp : LogId → LogId → Ordering) (laws : IsOrder log_cmp) {SD : Type 0}
    (fs : FileSystem SD) (reliable : Reliable fs) where
  pub load_last :
      (d : Dir) → load_last_snapshot log_cmp fs d ≡ load_id fs (last (ids_in log_cmp fs d)) d
  unfolding load_last_snapshot
  load_last d = rw (load_snapshot_ids_lem log_cmp laws fs reliable d)

  loaded_last :
      (d : Dir) (o : Option MetaSnapshotId) (id : MetaSnapshotId) (snapshot_data : SD)
      → load_id fs o d ≡ ok (some (id, snapshot_data))
      → (o ≡ some id) × (fs.open_snapshot (file_name id) (display id) d ≡ ok snapshot_data)
  unfolding load_snapshot file_name
  loaded_last d none id snapshot_data h = cc
  loaded_last d (some m) id snapshot_data h =
      let (same, e) =
        opened (fs.open_snapshot (snapshot_fn (display m)) (display m) d) m id snapshot_data
          (rw (reliable.ready d) at h) in
      (
        ap (λ k. some k) same,
        subst (λ k. fs.open_snapshot (snapshot_fn (display k)) (display k) d ≡ ok snapshot_data)
            same e,
      )

  -- Where log ids have a total order, every directory can be listed, a file that stays is opened
  -- alike, no name stands twice in the directory and the names of snapshots are the ones that
  -- they are stored under: where the last snapshot is loaded, it is that of a file in the
  -- directory, opened by the name of that file, and the id of every other snapshot in the
  -- directory is less.
  pub load_last_snapshot_lem :
      (d : Dir) (id j : MetaSnapshotId) (snapshot_data : SD) (name : Text)
      → Distinct d
      → Canonical d
      → load_last_snapshot log_cmp fs d ≡ ok (some (id, snapshot_data))
      → Has name d
      → found name ≡ snapshot j
      → Has (file_name id) d
        × ((fs.open_snapshot (file_name id) (display id) d ≡ ok snapshot_data)
            × ((j ≡ id) ⊎ (id_cmp log_cmp j id ≡ Ordering.lt)))
  load_last_snapshot_lem d id j snapshot_data name one canonical loaded h read =
      let (at_end, data_of) =
        loaded_last d (last (ids_in log_cmp fs d)) id snapshot_data (sym (load_last d) ∙ loaded) in
      let here = last-Has (ids_in log_cmp fs d) id at_end in
      (
        (ids_in-file_name log_cmp laws fs reliable d one canonical id here).0,
        (
          data_of,
          last-max (id_cmp log_cmp) (id_cmp-IsOrder log_cmp laws) (ids_in log_cmp fs d) id j
              (ids_in-Ascending log_cmp laws fs reliable d one canonical) at_end
              (found-ids_in log_cmp laws fs reliable d name j h read),
        ),
      )
