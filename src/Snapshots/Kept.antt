-- ===== src/Snapshots/Kept.antt =====
-- Which snapshots `load_snapshot_ids` and `load_last_snapshot` find, before and after `clean_old_snapshots`.
use Prim.Native.Nat.{Ordering}
use databend_meta.Common.{
  ℕ, ◌≡◌, All, ◌↔◌, ◌-◌, ◌∙◌, refl, sym, ap, subst, Option, none, some, List, [], ◌∷◌, Text, Has,
  Result, ok, inl, inr, arith, length, Option-cases,
}
use databend_meta.Common.Sort.{
  IsOrder, Distinct, Ascending, Has-drop, Has-All, last, last-Has, last-drop,
}
use databend_meta.Common.Sorted.{Ascending-unique, drop-Ascending, last_of_part}
use databend_meta.Types.SysData.{LogId}
use databend_meta.Snapshots.Id.{MetaSnapshotId, display, snapshot_fn, temp_snapshot_id}
use databend_meta.Snapshots.Order.{id_cmp, text_cmp, id_cmp-IsOrder, text_cmp-IsOrder}
use databend_meta.Snapshots.Loader.{
  Dir, FileSystem, snapshot, found, file_name, load_snapshot_ids, load_snapshot, load_id,
  load_last_snapshot, clean_old_snapshots,
}
use databend_meta.Snapshots.Listed.{
  Reliable, ids_in, invalid_in, load_snapshot_ids_lem, ids_in-Ascending, invalid_in-Ascending,
  ids_in-file_name, found-ids_in, invalid_in-found, found-invalid_in,
}
use databend_meta.Snapshots.Gather.{found-temp_snapshot_id, Canonical}
use databend_meta.Snapshots.Left.{
  latest_ids, latest_names, kept_dir, kept_dir_lem, kept_dir-part, id_left, name_left, other_left,
  kept_dir-Distinct, kept_dir-Canonical, left_id, left_name,
}
use databend_meta.Snapshots.Loaded.{load_last}

latest_last :
    (ids : List MetaSnapshotId) (m : MetaSnapshotId) → last ids ≡ some m → Has m (latest_ids ids)
latest_last [] m h = cc
latest_last (id ∷ ids) m h =
    last-Has _ m (last-drop (length (id ∷ ids) - 3) (id ∷ ids) (omega arith) ∙ h)

last_some : (x : MetaSnapshotId) (ids : List MetaSnapshotId) → last (x ∷ ids) ≡ none → ⊥
last_some x [] e = cc
last_some x (y ∷ ids) e = last_some y ids e

last_none :
    (ids part : List MetaSnapshotId)
    → ((id : MetaSnapshotId) → Has id part → Has id ids)
    → last ids ≡ none
    → last part ≡ none
last_none ids [] f e = refl
last_none [] (id ∷ part) f e = absurd (f id (inl refl))
last_none (x ∷ []) (id ∷ part) f e = cc
last_none (x ∷ y ∷ ids) (id ∷ part) f e = absurd (last_some y ids e)

module _ (log_cmp : LogId → LogId → Ordering) (laws : IsOrder log_cmp) {SD : Type 0}
    (fs : FileSystem SD) (reliable : Reliable fs) where
  module _ (d : Dir) (one : Distinct d) (canonical : Canonical d) where
    abbrev after : Dir
    after = kept_dir log_cmp laws fs reliable d one canonical

    after_id :
        (id : MetaSnapshotId)
        → Has id (ids_in log_cmp fs after)
        → Has (file_name id) after × (found (file_name id) ≡ snapshot id)
    after_id =
        ids_in-file_name log_cmp laws fs reliable after
          (kept_dir-Distinct log_cmp laws fs reliable d one canonical)
          (kept_dir-Canonical log_cmp laws fs reliable d one canonical)

    after-Ascending : Ascending (id_cmp log_cmp) (ids_in log_cmp fs after)
    after-Ascending =
        ids_in-Ascending log_cmp laws fs reliable after
          (kept_dir-Distinct log_cmp laws fs reliable d one canonical)
          (kept_dir-Canonical log_cmp laws fs reliable d one canonical)

    latest_after :
        (id : MetaSnapshotId)
        → Has id (latest_ids (ids_in log_cmp fs d))
        → Has id (ids_in log_cmp fs after)
    latest_after id h =
        found-ids_in log_cmp laws fs reliable after (file_name id) id
          (id_left log_cmp laws fs reliable d one canonical id h)
          (ids_in-file_name log_cmp laws fs reliable d one canonical id (Has-drop _ _ id h)).1

    before : (id : MetaSnapshotId) → Has id (ids_in log_cmp fs after) → Has id (ids_in log_cmp fs d)
    before id h =
        let (at, read) = after_id id h in
        found-ids_in log_cmp laws fs reliable d (file_name id) id
          (kept_dir-part log_cmp laws fs reliable d one canonical (file_name id) at) read

    last_after : last (ids_in log_cmp fs after) ≡ last (ids_in log_cmp fs d)
    last_after = elim (Option-cases (last (ids_in log_cmp fs d))) [
      | inl e ↦ last_none _ _ before e ∙ sym e
      | inr (m, e) ↦
          last_of_part (id_cmp log_cmp) (id_cmp-IsOrder log_cmp laws) (ids_in log_cmp fs d)
            (ids_in log_cmp fs after) m (ids_in-Ascending log_cmp laws fs reliable d one canonical)
            after-Ascending before e (latest_after m (latest_last (ids_in log_cmp fs d) m e))
          ∙ sym e
    ]

    load_same :
        (m : Option MetaSnapshotId)
        → last (ids_in log_cmp fs d) ≡ m
        → load_id fs m after ≡ load_id fs m d
    unfolding load_snapshot
    load_same none e = refl
    load_same (some m) e =
        let here = last-Has (ids_in log_cmp fs d) m e in
        let (there, read) = ids_in-file_name log_cmp laws fs reliable d one canonical m here in
        let stays =
          id_left log_cmp laws fs reliable d one canonical m
            (latest_last (ids_in log_cmp fs d) m e) in
        rw (
          reliable.ready after,
          reliable.ready d,
          reliable.opened (snapshot_fn (display m)) (display m) after d (unfold file_name in stays)
              (unfold file_name in there),
        )

    is_after :
        (d' : Dir) (r : Result (Unit {0})) → clean_old_snapshots log_cmp fs d ≡ (r, d') → d' ≡ after
    is_after d' r cleaned =
        sym (ap (λ (p : Result (Unit {0}) × Dir). p.1) cleaned)
        ∙ kept_dir_lem log_cmp laws fs reliable d one canonical

    module _ (done : (clean_old_snapshots log_cmp fs d).0 ≡ ok tt) where
      ids_in-after : ids_in log_cmp fs after ≡ latest_ids (ids_in log_cmp fs d)
      ids_in-after =
          Ascending-unique (id_cmp log_cmp) (id_cmp-IsOrder log_cmp laws) _ _ after-Ascending
            (drop-Ascending (id_cmp log_cmp) (id_cmp-IsOrder log_cmp laws) _ _
              (ids_in-Ascending log_cmp laws fs reliable d one canonical))
            (λ id h.
              let (at, read) = after_id id h in
              left_id log_cmp laws fs reliable d one canonical done (file_name id) id (at) read)
            latest_after

      invalid_in-after : invalid_in fs after ≡ latest_names (invalid_in fs d)
      invalid_in-after =
          Ascending-unique text_cmp text_cmp-IsOrder _ _
            (invalid_in-Ascending log_cmp laws fs reliable after
              (kept_dir-Distinct log_cmp laws fs reliable d one canonical)
              (kept_dir-Canonical log_cmp laws fs reliable d one canonical))
            (drop-Ascending text_cmp text_cmp-IsOrder _ _
              (invalid_in-Ascending log_cmp laws fs reliable d one canonical))
            (λ name h.
              let (at, read) = invalid_in-found log_cmp laws fs reliable after name h in
              left_name log_cmp laws fs reliable d one canonical done name at read)
            λ name h.
              found-invalid_in log_cmp laws fs reliable after name
                (name_left log_cmp laws fs reliable d one canonical name h)
                (invalid_in-found log_cmp laws fs reliable d name (Has-drop _ _ name h)).1

  -- Where log ids have a total order, every directory can be listed, a file that stays is opened
  -- alike, no name stands twice in the directory and the names of snapshots are the ones that
  -- they are stored under: after a clean that succeeds, the ids that are loaded are the last
  -- three of those before, and of the names with an invalid id the last two are left.
  pub clean_old_snapshots-load_snapshot_ids :
      (d d' : Dir) (ids : List MetaSnapshotId) (invalid : List Text)
      → Distinct d
      → Canonical d
      → load_snapshot_ids log_cmp fs d ≡ ok (ids, invalid)
      → clean_old_snapshots log_cmp fs d ≡ (ok tt, d')
      → load_snapshot_ids log_cmp fs d' ≡ ok (latest_ids ids, latest_names invalid)
  clean_old_snapshots-load_snapshot_ids d d' ids invalid one canonical loaded cleaned =
      let same = load_snapshot_ids_lem log_cmp laws fs reliable d in
      let p : ids_in log_cmp fs d ≡ ids = cc in
      let q : invalid_in fs d ≡ invalid = cc in
      let done = ap (λ (r : Result (Unit {0}) × Dir). r.0) cleaned in
      rw (is_after d one canonical d' (ok tt) cleaned) (
        load_snapshot_ids_lem log_cmp laws fs reliable (after d one canonical) ∙ λ i. ok (
          (ids_in-after d one canonical done ∙ ap latest_ids p) i,
          (invalid_in-after d one canonical done ∙ ap latest_names q) i,
        ))

  -- Where log ids have a total order, every directory can be listed, a file that stays is opened
  -- alike, no name stands twice in the directory and the names of snapshots are the ones that
  -- they are stored under: whatever a clean ends with, loading the last snapshot afterwards has
  -- the result that it had before.
  pub clean_old_snapshots-load_last_snapshot :
      (d d' : Dir) (r : Result (Unit {0}))
      → Distinct d
      → Canonical d
      → clean_old_snapshots log_cmp fs d ≡ (r, d')
      → load_last_snapshot log_cmp fs d' ≡ load_last_snapshot log_cmp fs d
  clean_old_snapshots-load_last_snapshot d d' r one canonical cleaned =
      rw (is_after d one canonical d' r cleaned) (
        load_last log_cmp laws fs reliable (after d one canonical)
        ∙ ap (λ m. load_id fs m (after d one canonical)) (last_after d one canonical)
        ∙ load_same d one canonical (last (ids_in log_cmp fs d)) refl
        ∙ sym (load_last log_cmp laws fs reliable d))

  -- Where log ids have a total order, every directory can be listed, a file that stays is opened
  -- alike, no name stands twice in the directory and the names of snapshots are the ones that
  -- they are stored under: whatever a clean ends with, no file is new, and a temporary file, at
  -- whatever time `ts` it was made, is there exactly if it was there before.
  pub clean_old_snapshots-temp_snapshot_id :
      (d d' : Dir) (r : Result (Unit {0})) (ts : ℕ)
      → Distinct d
      → Canonical d
      → clean_old_snapshots log_cmp fs d ≡ (r, d')
      → All (λ name. Has name d) d' × (Has (temp_snapshot_id ts) d' ↔ Has (temp_snapshot_id ts) d)
  clean_old_snapshots-temp_snapshot_id d d' r ts one canonical cleaned =
      let e = is_after d one canonical d' r cleaned in
      let part : (name : Text) → Has name d' → Has name d = λ name h.
        kept_dir-part log_cmp laws fs reliable d one canonical name (subst (λ s. Has name s) e h) in
      (
        Has-All _ d' part,
        (
          part (temp_snapshot_id ts),
          λ h.
              subst (λ s. Has (temp_snapshot_id ts) s) (sym e)
                (other_left log_cmp laws fs reliable d one canonical (temp_snapshot_id ts)
                  (found-temp_snapshot_id ts) h),
        ),
      )
