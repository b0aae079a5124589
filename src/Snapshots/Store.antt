-- ===== src/Snapshots/Store.antt =====
-- How files come into the directory of snapshots: `new_receiver` of sm_v003/snapshot_store_v003.rs, which makes a temporary file, and
-- `move_to_final_path` of snapshot_config.rs, which gives a finished one its name.
use Prim.Native.Nat.{Ordering}
use databend_meta.Common.{
  ℕ, ◌≡◌, none, some, [], ◌∷◌, Text, if◌then◌else◌, ok, err, IoError, Action, and_then, with_read,
}
use databend_meta.Common.Maps.{contains, remove_text}
use databend_meta.Types.SysData.{LogId}
use databend_meta.Snapshots.Id.{MetaSnapshotId, display, snapshot_fn, temp_snapshot_id}
use databend_meta.Snapshots.RoundTrip.{Fits}
use databend_meta.Snapshots.Loader.{Dir, FileSystem, clean_old_snapshots}

-- The text of the error is left out.
abbrev pub io_error : IoError
io_error = record { message = [] }

module _ {SD : Type 0} (fs : FileSystem SD) where
  -- `create_new(true)`: a file that exists is an error.
  unfoldable pub create_new : Text → Action Dir (Unit {0})
  create_new name d = elim (fs.create_fault name d) [
    | none ↦ if contains d name then (err io_error, d) else (ok tt, name ∷ d)
    | some e ↦ (err e, d)
  ]

  -- `fs::rename`: a file under the new name is replaced.
  unfoldable pub rename : Text → Text → Action Dir (Unit {0})
  rename from to d = elim (fs.rename_fault from to d) [
    | none ↦
        if contains d from
        then (ok tt, to ∷ remove_text (remove_text d from) to)
        else (err io_error, d)
    | some e ↦ (err e, d)
  ]

  -- At the time `ts`; returns the name of the temporary file.
  unfoldable pub new_receiver : ℕ → Action Dir Text
  unfolding create_new
  new_receiver ts d =
      with_read (fs.ensure_snapshot_dir d)
        (λ _ s.
          and_then (create_new (temp_snapshot_id ts) s) λ _ s'. (ok (temp_snapshot_id ts), s'))
        d

  -- Returns the name that the file has then.
  unfoldable pub move_to_final_path : Text → Text → Action Dir Text
  unfolding rename
  move_to_final_path temp_path snapshot_id d =
      and_then (rename temp_path (snapshot_fn snapshot_id) d)
        λ _ s. (ok (snapshot_fn snapshot_id), s)

  -- The operations that change the directory, however they end; a finished snapshot has an id of `u64` numbers.
  pub data Step (log_cmp : LogId → LogId → Ordering) (d d' : Dir) : Type 0 where
    received : (ts : ℕ) → d' ≡ (new_receiver ts d).1 → Step log_cmp d d'
    moved :
        (temp_path : Text) (id : MetaSnapshotId)
        → Fits id
        → d' ≡ (move_to_final_path temp_path (display id) d).1
        → Step log_cmp d d'
    cleaned : d' ≡ (clean_old_snapshots log_cmp fs d).1 → Step log_cmp d d'

  -- From an empty directory
  pub data Reached (log_cmp : LogId → LogId → Ordering) : Dir → Type 0 where
    empty : Reached log_cmp []
    next : {d d' : Dir} → Reached log_cmp d → Step log_cmp d d' → Reached log_cmp d'
