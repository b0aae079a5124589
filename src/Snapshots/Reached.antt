-- ===== src/Snapshots/Reached.antt =====
-- The names in a directory of snapshots, whatever operations it went through.
use Prim.Native.Nat.{Ordering}
use databend_meta.Common.{
  ℕ, ◌≡◌, ◌≢◌, ◌∙◌, refl, sym, ap, subst, List, [], ◌∷◌, Text, All, Result, ok, err, inl, inr,
  and_then, with_read, text_eq_iff, Option-cases, Bool-cases, false, ◌⊎◌, arith,
}
use databend_meta.Common.Maps.{contains, remove_text}
use databend_meta.Common.Sort.{Distinct, Has-All}
use databend_meta.Types.SysData.{LogId}
use databend_meta.Snapshots.Id.{MetaSnapshotId, display, snapshot_fn, temp_snapshot_id}
use databend_meta.Snapshots.RoundTrip.{Fits}
use databend_meta.Snapshots.Loader.{
  Dir, FileSystem, snapshot, found, file_name, old_files, load_snapshot_ids, remove_all, clean_ids,
  clean_old_snapshots,
}
use databend_meta.Snapshots.Gather.{Canonical, found-file_name, found-temp_snapshot_id}
use databend_meta.Snapshots.Removed.{
  Has-remove_text, remove_text-Distinct, remove_all-part, remove_all-Distinct,
}
use databend_meta.Snapshots.Left.{removals}
use databend_meta.Snapshots.Store.{
  create_new, rename, new_receiver, move_to_final_path, Step, received, moved, cleaned, Reached,
  empty, next,
}

-- Each file has a name of its own, and the names of snapshots are the ones that they are stored under.
abbrev pub Stored : Dir → Type 0
Stored d = Distinct d × Canonical d

fresh-contains : (d : Dir) (n : Text) → contains d n ≡ false → All (λ m. n ≢ m) d
unfolding contains
fresh-contains [] n h = tt
fresh-contains (m ∷ d) n h = (
  (λ same. let e = (text_eq_iff m n).1 (sym same) in ground arith),
  fresh-contains d n (ground arith),
)

remove-Stored : (d : Dir) (n : Text) → Stored d → Stored (remove_text d n)
remove-Stored d n (o, c) =
    (remove_text-Distinct d n o, λ name id h. c name id (Has-remove_text d n name h).0)

added-Canonical :
    (n : Text) (d : Dir)
    → ((id : MetaSnapshotId) → found n ≡ snapshot id → n ≡ file_name id)
    → Canonical d
    → Canonical (n ∷ d)
added-Canonical n d own c name id (inl same) read = same ∙ own id (ap found (sym same) ∙ read)
added-Canonical n d own c name id (inr h) read = c name id h read

add-Stored :
    (d : Dir) (n : Text)
    → All (λ m. n ≢ m) d
    → ((id : MetaSnapshotId) → found n ≡ snapshot id → n ≡ file_name id)
    → Stored d
    → Stored (n ∷ d)
add-Stored d n fresh own (o, c) = ((fresh, o), added-Canonical n d own c)

state-and_then :
    {A B : Type 0} (m : Result A × Dir) (b : B) → (and_then m (λ _ s. (ok b, s))).1 ≡ m.1
state-and_then (ok a, d) b = refl
state-and_then (err e, d) b = refl

module _ {SD : Type 0} (fs : FileSystem SD) where
  create_cases :
      (n : Text) (d : Dir)
      → ((contains d n ≡ false) × ((create_new fs n d).1 ≡ n ∷ d)) ⊎ ((create_new fs n d).1 ≡ d)
  unfolding create_new
  create_cases n d = elim (Option-cases (fs.create_fault n d)) [
    | inr (e, h) ↦ inr (rw (h, create_new))
    | inl h ↦ elim (Bool-cases (contains d n)) [
      | inl there ↦ inr (rw (h, there, create_new))
      | inr fresh ↦ inl (fresh, rw (h, fresh, create_new))
    ]
  ]

  rename_cases :
      (from to : Text) (d : Dir)
      → ((rename fs from to d).1 ≡ to ∷ remove_text (remove_text d from) to)
        ⊎ ((rename fs from to d).1 ≡ d)
  unfolding rename
  rename_cases from to d = elim (Option-cases (fs.rename_fault from to d)) [
    | inr (e, h) ↦ inr (rw (h, rename))
    | inl h ↦ elim (Bool-cases (contains d from)) [
      | inl there ↦ inl (rw (h, there, rename))
      | inr missing ↦ inr (rw (h, missing, rename))
    ]
  ]

  create_new-Stored :
      (ts : ℕ) (d : Dir) → Stored d → Stored (create_new fs (temp_snapshot_id ts) d).1
  create_new-Stored ts d s = elim (create_cases (temp_snapshot_id ts) d) [
    | inl (fresh, e) ↦ rw e (
        add-Stored d (temp_snapshot_id ts) (fresh-contains d _ fresh)
          (λ id read. let e' = found-temp_snapshot_id ts in cc) s)
    | inr e ↦ rw e s
  ]

  rename-Stored :
      (from : Text) (id : MetaSnapshotId) (d : Dir)
      → Fits id
      → Stored d
      → Stored (rename fs from (file_name id) d).1
  rename-Stored from id d f s = elim (rename_cases from (file_name id) d) [
    | inl e ↦ rw e (
        add-Stored (remove_text (remove_text d from) (file_name id)) (file_name id)
          (Has-All _ _
            λ m h same. (Has-remove_text (remove_text d from) (file_name id) m h).1 (sym same))
          (λ j read. let e' = found-file_name id f in let same : id ≡ j = cc in ap file_name same)
          (remove-Stored (remove_text d from) (file_name id) (remove-Stored d from s)))
    | inr e ↦ rw e s
  ]

  remove_all-Stored : (ns : List Text) (d : Dir) → Stored d → Stored (remove_all fs ns d).1
  remove_all-Stored ns d (o, c) =
      (remove_all-Distinct fs ns d o, λ name id h. c name id (remove_all-part fs ns d name h))

  clean_cases :
      (r : Result (Unit {0})) (q : Result (List MetaSnapshotId × List Text)) (d : Dir)
      → (ns : List Text) × ((with_read r
            (λ _.
              with_read q
                λ l s. and_then (remove_all fs (old_files l.1) s) λ _ s'. clean_ids fs l.0 s')
            d).1
          ≡ (remove_all fs ns d).1)
  clean_cases (err e) q d = ([], unfold remove_all in refl)
  clean_cases (ok u) (err e) d = ([], unfold remove_all in refl)
  clean_cases (ok u) (ok l) d =
      (_, ap (λ (p : Result (Unit {0}) × Dir). p.1) (removals fs (old_files l.1) l.0 d))

  receive_cases :
      (r : Result (Unit {0})) (ts : ℕ) (d : Dir)
      → Stored d
      → Stored
          (with_read r
            (λ _ s.
              and_then
                (create_new fs (temp_snapshot_id ts) s)
                λ _ s'. (ok (temp_snapshot_id ts), s'))
            d).1
  receive_cases (err e) ts d s = s
  receive_cases (ok u) ts d s =
      rw (state-and_then (create_new fs (temp_snapshot_id ts) d) (temp_snapshot_id ts))
        (create_new-Stored ts d s)

  Step-Stored :
      (log_cmp : LogId → LogId → Ordering) (d d' : Dir)
      → Step fs log_cmp d d'
      → Stored d
      → Stored d'
  unfolding new_receiver move_to_final_path clean_old_snapshots
  Step-Stored log_cmp d d' (received ts e) s =
      subst Stored (sym e) (receive_cases (fs.ensure_snapshot_dir d) ts d s)
  Step-Stored log_cmp d d' (moved from id f e) s =
      subst Stored (sym (e ∙ state-and_then (rename fs from (snapshot_fn (display id)) d) _))
        (unfold file_name in rename-Stored from id d f s)
  Step-Stored log_cmp d d' (cleaned e) s =
      let (ns, same) = clean_cases (fs.ensure_snapshot_dir d) (load_snapshot_ids log_cmp fs d) d in
      subst Stored (sym (e ∙ same)) (remove_all-Stored ns d s)

  -- However the calls of the file system end: after any sequence of receiving, naming finished snapshots (with ids of `u64`
  -- numbers) and cleaning, from an empty directory on, no name stands twice in the directory, and a name that reads as
  -- a snapshot is the one that the snapshot is stored under.
  pub Reached-Stored :
      (log_cmp : LogId → LogId → Ordering) (d : Dir) → Reached fs log_cmp d → Stored d
  Reached-Stored log_cmp d empty = (tt, λ name id h. absurd h)
  Reached-Stored log_cmp d (next {d = before} r step) =
      Step-Stored log_cmp before d step (Reached-Stored log_cmp before r)
