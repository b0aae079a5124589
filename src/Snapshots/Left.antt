-- ===== src/Snapshots/Left.antt =====
-- What `clean_old_snapshots` removes, and what it leaves.
use Prim.Native.Nat.{Ordering}
use databend_meta.Common.{
  ◌≡◌, ◌⊎◌, ◌-◌, ◌∙◌, refl, sym, ap, fun_ext, List, [], ◌∷◌, ◌++◌, map, Text, Has, Has-map, map-Has,
  Has-append, append-Has, Result, ok, inl, inr, arith, length, take, ltb, leb, Bool-cases, and_then,
}
use databend_meta.Common.Maps.{remove_text}
use databend_meta.Common.Sort.{IsOrder, Distinct, drop, Has-take, Has-drop, Has-take_or_drop}
use databend_meta.Common.Sorted.{take-lt-drop}
use databend_meta.Types.SysData.{LogId}
use databend_meta.Snapshots.Id.{MetaSnapshotId}
use databend_meta.Snapshots.Order.{id_cmp, text_cmp, id_cmp-IsOrder, text_cmp-IsOrder}
use databend_meta.Snapshots.Loader.{
  Dir, FileSystem, snapshot, invalid_file, other, found, file_name, old_files, remove_all,
  clean_ids, clean_old_snapshots,
}
use databend_meta.Snapshots.Removed.{
  removed, remove_all-part, remove_all-stays, remove_all-Distinct, remove_all-gone,
}
use databend_meta.Snapshots.Listed.{
  Reliable, ids_in, invalid_in, load_snapshot_ids_lem, ids_in-Ascending, invalid_in-Ascending,
  ids_in-file_name, found-ids_in, invalid_in-found, found-invalid_in,
}
use databend_meta.Snapshots.Gather.{Canonical}

-- The subtraction in the code's bound keeps nothing where there is nothing to remove.
old_files-take : (l : List Text) → old_files l ≡ take (length l - 2) l
old_files-take l = elim (Bool-cases (ltb 2 (length l))) [
  | inl e ↦ rw e
  | inr e ↦ let few : length l - 2 ≡ 0 = ground arith in rw (e, few)
]

-- All but the three latest ids, and all but the last two names; and those that are left
abbrev pub old_ids : List MetaSnapshotId → List MetaSnapshotId
old_ids ids = take (length ids - 3) ids

abbrev pub latest_ids : List MetaSnapshotId → List MetaSnapshotId
latest_ids ids = drop (length ids - 3) ids

abbrev old_names : List Text → List Text
old_names invalid = take (length invalid - 2) invalid

abbrev pub latest_names : List Text → List Text
latest_names invalid = drop (length invalid - 2) invalid

module _ {SD : Type 0} (fs : FileSystem SD) where
  clean_ids-remove_all :
      (ids : List MetaSnapshotId) (d : Dir)
      → clean_ids fs ids d ≡ remove_all fs (map file_name (take (length ids - 3) ids)) d
  clean_ids-remove_all ids d = elim (Bool-cases (leb (length ids) 3)) [
    | inl e ↦ let few : length ids - 3 ≡ 0 = ground arith in rw (e, few) (unfold remove_all in refl)
    | inr e ↦ rw e
  ]

  remove_all-append :
      (xs ys : List Text) (d : Dir)
      → and_then (remove_all fs xs d) (λ _ s. remove_all fs ys s) ≡ remove_all fs (xs ++ ys) d
  unfolding remove_all
  remove_all-append [] ys d = refl
  remove_all-append (x ∷ xs) ys d = elim (removed fs x d) [
    | inl e ↦ rw e (remove_all-append xs ys (remove_text d x))
    | inr (fault, e) ↦ rw e
  ]

  -- The removals of a clean, one after the other.
  pub removals :
      (ns : List Text) (ids : List MetaSnapshotId) (d : Dir)
      → and_then (remove_all fs ns d) (λ _ s. clean_ids fs ids s)
        ≡ remove_all fs (ns ++ map file_name (old_ids ids)) d
  removals ns ids d =
      ap (λ (rest : Unit {0} → Dir → Result (Unit {0}) × Dir). and_then (remove_all fs ns d) rest)
        (fun_ext λ _. fun_ext λ s. clean_ids-remove_all ids s)
      ∙ remove_all-append ns _ d

module _ (log_cmp : LogId → LogId → Ordering) (laws : IsOrder log_cmp) {SD : Type 0}
    (fs : FileSystem SD) (reliable : Reliable fs) (d : Dir) where
  doomed : List Text
  doomed = old_names (invalid_in fs d) ++ map file_name (old_ids (ids_in log_cmp fs d))

  clean_old_snapshots-remove_all : clean_old_snapshots log_cmp fs d ≡ remove_all fs doomed d
  unfolding clean_old_snapshots doomed
  clean_old_snapshots-remove_all =
      rw
        (
          reliable.ready d,
          load_snapshot_ids_lem log_cmp laws fs reliable d,
          old_files-take (invalid_in fs d),
        )
        (removals fs (old_names (invalid_in fs d)) (ids_in log_cmp fs d) d)

  doomed_cases :
      (name : Text)
      → Has name doomed
      → Has name (old_names (invalid_in fs d))
        ⊎ ((id : MetaSnapshotId) × Has id (old_ids (ids_in log_cmp fs d)) × (name ≡ file_name id))
  unfolding doomed
  doomed_cases name h = elim (Has-append (old_names (invalid_in fs d)) _ name h) [
    | inl m ↦ inl m
    | inr m ↦ inr (Has-map file_name (old_ids (ids_in log_cmp fs d)) name m)
  ]

  invalid_listed : (name : Text) → Has name (invalid_in fs d) → Has name d
  invalid_listed name h = (invalid_in-found log_cmp laws fs reliable d name h).0

  invalid_found : (name : Text) → Has name (invalid_in fs d) → found name ≡ invalid_file
  invalid_found name h = (invalid_in-found log_cmp laws fs reliable d name h).1

  module _ (one : Distinct d) (canonical : Canonical d) where
    file_of :
        (id : MetaSnapshotId)
        → Has id (ids_in log_cmp fs d)
        → Has (file_name id) d × (found (file_name id) ≡ snapshot id)
    file_of = ids_in-file_name log_cmp laws fs reliable d one canonical

    -- What is removed reads as an old id, or is an old name with an invalid id.
    doomed-found :
        (name : Text)
        → Has name doomed
        → (Has name (old_names (invalid_in fs d)) × (found name ≡ invalid_file))
          ⊎ ((id : MetaSnapshotId) × Has id (old_ids (ids_in log_cmp fs d))
              × (found name ≡ snapshot id))
    doomed-found name h = elim (doomed_cases name h) [
      | inl m ↦ inl (m, invalid_found name (Has-take _ (invalid_in fs d) name m))
      | inr (id, m, e) ↦ inr (id, m, rw e (file_of id (Has-take _ (ids_in log_cmp fs d) id m)).1)
    ]

    id_apart :
        (id : MetaSnapshotId)
        → Has id (latest_ids (ids_in log_cmp fs d))
        → Has (file_name id) doomed
        → ⊥
    id_apart id h m =
        let read = (file_of id (Has-drop _ (ids_in log_cmp fs d) id h)).1 in
        elim (doomed-found (file_name id) m) [
          | inl (k, e) ↦ cc
          | inr (j, k, e) ↦
              let less =
                take-lt-drop (id_cmp log_cmp) (id_cmp-IsOrder log_cmp laws) _ (ids_in log_cmp fs d)
                  j id (ids_in-Ascending log_cmp laws fs reliable d one canonical) k h in
              let self = (id_cmp-IsOrder log_cmp laws).self id in cc
        ]

    name_apart : (name : Text) → Has name (latest_names (invalid_in fs d)) → Has name doomed → ⊥
    name_apart name h m =
        let read = invalid_found name (Has-drop _ (invalid_in fs d) name h) in
        elim (doomed-found name m) [
          | inl (k, e) ↦
              let less =
                take-lt-drop text_cmp text_cmp-IsOrder _ (invalid_in fs d) name name
                  (invalid_in-Ascending log_cmp laws fs reliable d one canonical) k h in
              let self = text_cmp-IsOrder.self name in cc
          | inr (j, k, e) ↦ cc
        ]

    other_apart : (name : Text) → found name ≡ other → Has name doomed → ⊥
    other_apart name read m = elim (doomed-found name m) [ inl (k, e) ↦ cc | inr (j, k, e) ↦ cc ]

    pub kept_dir : Dir
    unfolding doomed
    kept_dir = (remove_all fs doomed d).1

    pub kept_dir_lem : (clean_old_snapshots log_cmp fs d).1 ≡ kept_dir
    unfolding kept_dir
    kept_dir_lem = ap (λ (r : Result (Unit {0}) × Dir). r.1) clean_old_snapshots-remove_all

    pub kept_dir-part : (name : Text) → Has name kept_dir → Has name d
    unfolding kept_dir
    kept_dir-part name h = remove_all-part fs doomed d name h

    kept_dir-stays : (name : Text) → Has name d → (Has name doomed → ⊥) → Has name kept_dir
    unfolding kept_dir
    kept_dir-stays name h out = remove_all-stays fs doomed d name h out

    pub id_left :
        (id : MetaSnapshotId)
        → Has id (latest_ids (ids_in log_cmp fs d))
        → Has (file_name id) kept_dir
    id_left id h =
        kept_dir-stays (file_name id) (file_of id (Has-drop _ (ids_in log_cmp fs d) id h)).0
          (id_apart id h)

    pub name_left : (name : Text) → Has name (latest_names (invalid_in fs d)) → Has name kept_dir
    name_left name h =
        kept_dir-stays name (invalid_listed name (Has-drop _ (invalid_in fs d) name h))
          (name_apart name h)

    pub other_left : (name : Text) → found name ≡ other → Has name d → Has name kept_dir
    other_left name read h = kept_dir-stays name h (other_apart name read)

    pub kept_dir-Distinct : Distinct kept_dir
    unfolding kept_dir
    kept_dir-Distinct = remove_all-Distinct fs doomed d one

    pub kept_dir-Canonical : Canonical kept_dir
    kept_dir-Canonical name id h = canonical name id (kept_dir-part name h)

    module _ (done : (clean_old_snapshots log_cmp fs d).0 ≡ ok tt) where
      gone : (name : Text) → Has name doomed → Has name kept_dir → ⊥
      unfolding kept_dir
      gone name =
          remove_all-gone fs doomed d name
            (ap (λ (r : Result (Unit {0}) × Dir). r.0) (sym clean_old_snapshots-remove_all) ∙ done)

      pub left_id :
          (name : Text) (id : MetaSnapshotId)
          → Has name kept_dir
          → found name ≡ snapshot id
          → Has id (latest_ids (ids_in log_cmp fs d))
      unfolding doomed
      left_id name id h read =
          let listed =
            found-ids_in log_cmp laws fs reliable d name id (kept_dir-part name h) read in
          elim (Has-take_or_drop _ (ids_in log_cmp fs d) id listed) [
            | inl old ↦ absurd (
                gone name
                  (append-Has (old_names (invalid_in fs d)) _ name (
                    inr (
                      rw (canonical name id (kept_dir-part name h) read)
                        (map-Has file_name (old_ids (ids_in log_cmp fs d)) id old))))
                  h)
            | inr new ↦ new
          ]

      pub left_name :
          (name : Text)
          → Has name kept_dir
          → found name ≡ invalid_file
          → Has name (latest_names (invalid_in fs d))
      unfolding doomed
      left_name name h read =
          let listed =
            found-invalid_in log_cmp laws fs reliable d name (kept_dir-part name h) read in
          elim (Has-take_or_drop _ (invalid_in fs d) name listed) [
            | inl old ↦
                absurd (gone name (append-Has (old_names (invalid_in fs d)) _ name (inl old)) h)
            | inr new ↦ new
          ]
