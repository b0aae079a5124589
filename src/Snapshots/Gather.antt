-- ===== src/Snapshots/Gather.antt =====
-- What the loop over the entries of a directory collects.

use databend_meta.Common.{
  ℕ, ◌≡◌, ◌≢◌, ◌⊎◌, Option-cases, refl, sym, ap, ◌∙◌, true, Option, none, some, List, [], ◌∷◌, Text,
  All, Has, ok, err, IoStream, no_error, inl, inr,
}
use databend_meta.Common.Sort.{Distinct, All-Has, Has-All}
use databend_meta.Snapshots.Id.{
  temp_snapshot_id, MetaSnapshotId, display, from_str, extract_snapshot_id_from_fn,
}
use databend_meta.Snapshots.RoundTrip.{Fits, from_str-display, from_str-Fits}
use databend_meta.Snapshots.Names.{
  extract_snapshot_id_from_fn-temp_snapshot_id, extract_snapshot_id_from_fn-snapshot_fn,
}
use databend_meta.Snapshots.Loader.{
  Found, snapshot, invalid_file, other, classified, found_id, found, add_found, collect, file_name,
}

-- The names that are texts
abbrev pub names : IoStream (Option Text) → List Text
names [] = []
names (ok (some name) ∷ strm) = name ∷ names strm
names (ok none ∷ strm) = names strm
names (err e ∷ strm) = names strm

-- A name that reads as a snapshot is the one that the snapshot is stored under.
abbrev pub Canonical : List Text → Type 0
Canonical ns =
    (name : Text) (id : MetaSnapshotId)
    → Has name ns
    → found name ≡ snapshot id
    → name ≡ file_name id

pub gather : List Text → List MetaSnapshotId × List Text
gather [] = ([], [])
gather (name ∷ ns) = add_found name (found name) (gather ns)

pub collect-gather :
    (strm : IoStream (Option Text)) → no_error strm ≡ true → collect strm ≡ ok (gather (names strm))
unfolding collect gather
collect-gather [] h = refl
collect-gather (ok (some name) ∷ strm) h = rw (collect-gather strm h)
collect-gather (ok none ∷ strm) h = collect-gather strm h
collect-gather (err e ∷ strm) h = cc

classified-snapshot :
    (o : Option MetaSnapshotId) (id : MetaSnapshotId) → classified o ≡ snapshot id → o ≡ some id
classified-snapshot none id h = cc
classified-snapshot (some j) id h = cc

pub found-Fits : (name : Text) (id : MetaSnapshotId) → found name ≡ snapshot id → Fits id
unfolding found
found-Fits name id h = elim (Option-cases (extract_snapshot_id_from_fn name)) [
  | inl e ↦ let wrong : found_id none ≡ snapshot id = ap found_id (sym e) ∙ h in cc
  | inr (s, e) ↦
      let read : classified (from_str s) ≡ snapshot id = ap found_id (sym e) ∙ h in
      from_str-Fits s id (classified-snapshot (from_str s) id read)
]

pub found-file_name : (id : MetaSnapshotId) → Fits id → found (file_name id) ≡ snapshot id
unfolding found file_name
found-file_name id h =
    rw (extract_snapshot_id_from_fn-snapshot_fn (display id), from_str-display id h)

pub found-temp_snapshot_id : (ts : ℕ) → found (temp_snapshot_id ts) ≡ other
unfolding found
found-temp_snapshot_id ts = rw (extract_snapshot_id_from_fn-temp_snapshot_id ts)

add_id :
    (name : Text) (f : Found) (r : List MetaSnapshotId × List Text) (id : MetaSnapshotId)
    → Has id (add_found name f r).0
    → (f ≡ snapshot id) ⊎ Has id r.0
add_id name (snapshot j) r id (inl e) = inl (cc)
add_id name (snapshot j) r id (inr h) = inr h
add_id name invalid_file r id h = inr h
add_id name other r id h = inr h

add_id_new :
    (name : Text) (f : Found) (r : List MetaSnapshotId × List Text) (id : MetaSnapshotId)
    → (f ≡ snapshot id) ⊎ Has id r.0
    → Has id (add_found name f r).0
add_id_new name (snapshot j) r id (inl e) = inl (cc)
add_id_new name (snapshot j) r id (inr h) = inr h
add_id_new name invalid_file r id (inl e) = cc
add_id_new name invalid_file r id (inr h) = h
add_id_new name other r id (inl e) = cc
add_id_new name other r id (inr h) = h

pub gather_ids :
    (ns : List Text) (id : MetaSnapshotId)
    → Has id (gather ns).0
    → (name : Text) × Has name ns × (found name ≡ snapshot id)
unfolding gather
gather_ids [] id h = absurd h
gather_ids (n ∷ ns) id h = elim (add_id n (found n) (gather ns) id h) [
  | inl e ↦ (n, inl refl, e)
  | inr m ↦ let (name, at, e) = gather_ids ns id m in (name, inr at, e)
]

pub ids-gather :
    (ns : List Text) (name : Text) (id : MetaSnapshotId)
    → Has name ns
    → found name ≡ snapshot id
    → Has id (gather ns).0
unfolding gather
ids-gather [] name id h e = absurd h
ids-gather (n ∷ ns) name id (inl same) e =
    add_id_new n (found n) (gather ns) id (inl (rw (sym same) e))
ids-gather (n ∷ ns) name id (inr h) e =
    add_id_new n (found n) (gather ns) id (inr (ids-gather ns name id h e))

add_invalid :
    (n name : Text) (f : Found) (r : List MetaSnapshotId × List Text)
    → Has name (add_found n f r).1
    → ((name ≡ n) × (f ≡ invalid_file)) ⊎ Has name r.1
add_invalid n name (snapshot j) r h = inr h
add_invalid n name invalid_file r (inl e) = inl (e, refl)
add_invalid n name invalid_file r (inr h) = inr h
add_invalid n name other r h = inr h

add_invalid_new :
    (n name : Text) (f : Found) (r : List MetaSnapshotId × List Text)
    → ((name ≡ n) × (f ≡ invalid_file)) ⊎ Has name r.1
    → Has name (add_found n f r).1
add_invalid_new n name (snapshot j) r (inl (e, wrong)) = cc
add_invalid_new n name (snapshot j) r (inr h) = h
add_invalid_new n name invalid_file r (inl (e, same)) = inl e
add_invalid_new n name invalid_file r (inr h) = inr h
add_invalid_new n name other r (inl (e, wrong)) = cc
add_invalid_new n name other r (inr h) = h

pub gather_invalid :
    (ns : List Text) (name : Text)
    → Has name (gather ns).1
    → Has name ns × (found name ≡ invalid_file)
unfolding gather
gather_invalid [] name h = absurd h
gather_invalid (n ∷ ns) name h = elim (add_invalid n name (found n) (gather ns) h) [
  | inl (e, f) ↦ (inl e, rw e f)
  | inr m ↦ let (at, f) = gather_invalid ns name m in (inr at, f)
]

pub invalid-gather :
    (ns : List Text) (name : Text)
    → Has name ns
    → found name ≡ invalid_file
    → Has name (gather ns).1
unfolding gather
invalid-gather [] name h e = absurd h
invalid-gather (n ∷ ns) name (inl same) e =
    add_invalid_new n name (found n) (gather ns) (inl (same, rw (sym same) e))
invalid-gather (n ∷ ns) name (inr h) e =
    add_invalid_new n name (found n) (gather ns) (inr (invalid-gather ns name h e))

add-Distinct :
    (name : Text) (f : Found) (r : List MetaSnapshotId × List Text)
    → Distinct r.0
    → Distinct r.1
    → ((id : MetaSnapshotId) → Has id r.0 → f ≢ snapshot id)
    → All (λ n. name ≢ n) r.1
    → Distinct (add_found name f r).0 × Distinct (add_found name f r).1
add-Distinct name (snapshot id) r d e new_id new_name =
    ((Has-All _ r.0 λ j m same. new_id j m (ap snapshot same), d), e)
add-Distinct name invalid_file r d e new_id new_name = (d, (new_name, e))
add-Distinct name other r d e new_id new_name = (d, e)

pub gather-Distinct :
    (ns : List Text) → Distinct ns → Canonical ns → Distinct (gather ns).0 × Distinct (gather ns).1
unfolding gather
gather-Distinct [] d c = (tt, tt)
gather-Distinct (n ∷ ns) d c =
    let (e, f) = gather-Distinct ns d.1 λ name id m. c name id (inr m) in
    add-Distinct n (found n) (gather ns) e f
      (λ id m same.
        let (name, at, read) = gather_ids ns id m in
        All-Has (λ y. n ≢ y) ns name d.0 at
          (c n id (inl refl) same ∙ sym (c name id (inr at) read)))
      (Has-All _ (gather ns).1
        λ name m. All-Has (λ y. n ≢ y) ns name d.0 (gather_invalid ns name m).0)
