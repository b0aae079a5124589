-- ===== src/OnDisk/Upgrade.antt =====
-- ondisk/mod.rs and ondisk/upgrade_to_v004.rs: the disk is opened and upgraded, write by write.
use databend_meta.Common.{
  ℕ, zero, suc, ◌+◌, Bool, true, false, Option, none, some, List, [], ◌∷◌, ltb, ◌==◌, if◌then◌else◌,
  unwrap_or,
}
use databend_meta.Types.SysData.{LogId}
use databend_meta.OnDisk.Version.{
  DataVersion, rank, v003, v004, Header, data_version, version_leb, min_compatible_data_version,
  next,
}
use databend_meta.OnDisk.Import
use databend_meta.OnDisk.Import.{
  RaftStoreEntry, RaftLog, Importer, import_raft_store_entry, upgrade_entry,
}
use databend_meta.OnDisk.Disk.{Tree, Sled, Disk, drop_tree, Run, ◌>>=◌, ◌>>◌, pure, fails, write}

-- `LogMeta` in the tree raft_log
unfoldable pub last_purged : List RaftStoreEntry → Option LogId
last_purged [] = none
last_purged (Import.log_meta id ∷ es) = some id
last_purged (_ ∷ es) = last_purged es

-- `next_index()`
abbrev pub next_index : Option LogId → ℕ
next_index none = 0
next_index (some id) = id.index + 1

-- Log entries that were purged are skipped.
abbrev pub skips : ℕ → RaftStoreEntry → Bool
skips first (Import.log_entry id payload) = ltb id.index first
skips first e = false

abbrev pub no_sled : Sled
no_sled = record { header = none; raft_log = []; raft_state = [] }

module _ (rl : RaftLog) (Snapshot : Type 0) where
  abbrev pub Act : Type 0 → Type 0
  Act A = Run (Disk rl.Log Snapshot) A

  abbrev pub write_header : Header → Act (Unit {0})
  write_header h = write (λ d. record d { header = some h })

  unfoldable pub ensure_dirs : Act (Unit {0})
  ensure_dirs = write (λ d. record d { v004 = some (unwrap_or d.v004 rl.empty) })

  abbrev pub move_header : Option Header → Act (Unit {0})
  move_header none = pure tt
  move_header (some h) =
      write_header h >> write (λ d. record d { sled = record d.sled { header = none } })

  abbrev pub upgrade_missing : Option Header → Act (Unit {0})
  upgrade_missing (some h) = pure tt
  upgrade_missing none = λ d. move_header d.sled.header d

  unfoldable pub upgrade_header : Act (Unit {0})
  upgrade_header = λ d. upgrade_missing d.header d

  -- `OnDisk::new`: a version that is too old is a panic.
  unfoldable pub on_disk : Header → Act Header
  unfolding min_compatible_data_version
  on_disk h =
      if version_leb (min_compatible_data_version data_version) h.version then pure h else fails

  abbrev pub default_header : Header
  default_header = record { version = v003; upgrading = none; cleaning = false }

  abbrev pub loaded : Option Header → Act Header
  loaded (some h) = on_disk h
  loaded none = write_header default_header >> on_disk default_header

  unfoldable pub open_disk : Act Header
  unfolding ensure_dirs upgrade_header on_disk
  open_disk = ensure_dirs >> upgrade_header >> λ d. loaded d.header d

  -- A panic unless the upgrade starts at that version and none is in progress.
  abbrev pub begin_from : Option DataVersion → Option DataVersion → Header → Act Header
  begin_from (some to) none h =
      let h' : Header = record h { upgrading = some to } in write_header h' >> pure h'
  begin_from _ _ h = fails

  unfoldable pub begin_upgrading : DataVersion → Header → Act Header
  unfolding next
  begin_upgrading from_ver h =
      if rank from_ver == rank h.version then begin_from (next h.version) h.upgrading h else fails

  abbrev pub clean_for : Option DataVersion → Header → Act Header
  clean_for none h = fails
  clean_for (some to) h =
      let h' : Header = record h { cleaning = true } in write_header h' >> pure h'

  -- A panic unless an upgrade is in progress.
  unfoldable pub clean_upgrading : Header → Act Header
  clean_upgrading h = clean_for h.upgrading h

  abbrev pub finish_to : Option DataVersion → Act Header
  finish_to none = fails
  finish_to (some v) =
      let h : Header = record { version = v; upgrading = none; cleaning = false } in
      write_header h >> pure h

  unfoldable pub finish_upgrading : Header → Act Header
  finish_upgrading h = finish_to h.upgrading

  abbrev pub imported : Option (Importer rl.Log) → Act (Importer rl.Log)
  imported none = fails
  imported (some imp) = write (λ d. record d { v004 = some imp.raft_log }) >> pure imp

  unfoldable pub import_entries : ℕ → List RaftStoreEntry → Importer rl.Log → Act (Importer rl.Log)
  unfolding upgrade_entry import_raft_store_entry
  import_entries first [] imp = pure imp
  import_entries first (e ∷ es) imp =
      (if skips first (upgrade_entry e)
        then pure imp
        else imported (import_raft_store_entry rl (upgrade_entry e) imp))
      >>= λ imp'. import_entries first es imp'

  -- `fs_extra::dir::copy` of the snapshot directory, where there is one
  abbrev pub copy_snapshot : Act (Unit {0})
  copy_snapshot = write (λ d. record d {
    v004_snapshot = elim d.v003_snapshot [ none ↦ d.v004_snapshot | some s ↦ some s ];
  })

  abbrev pub drop_trees : List Tree → Act (Unit {0})
  drop_trees [] = pure tt
  drop_trees (t ∷ ts) = write (λ d. record d { sled = drop_tree t d.sled }) >> drop_trees ts

  -- The trees go one by one, in the order of `tree_names`, then the files of the database.
  unfoldable pub remove_v003_logs : List Tree → Act (Unit {0})
  remove_v003_logs names = drop_trees names >> write (λ d. record d { sled = no_sled })

  unfoldable pub remove_v003_snapshot : Act (Unit {0})
  remove_v003_snapshot = write (λ d. record d { v003_snapshot = none })

  unfoldable pub upgrade_v003_to_v004 : List Tree → Header → Act Header
  unfolding ensure_dirs begin_upgrading import_entries last_purged clean_upgrading remove_v003_logs
      remove_v003_snapshot finish_upgrading
  upgrade_v003_to_v004 names h = do
    _ ← ensure_dirs
    h1 ← begin_upgrading v003 h
    imp ← λ d.
        import_entries (next_index (last_purged d.sled.raft_log)) d.sled.raft_log
          (Import.new (unwrap_or d.v004 rl.empty)) d
    _ ← λ d. import_entries 0 d.sled.raft_state imp d
    _ ← copy_snapshot
    h2 ← clean_upgrading h1
    _ ← remove_v003_logs names
    _ ← remove_v003_snapshot
    finish_upgrading h2

  -- `remove_dir_all` of the directory of V004: an error where there is none.
  abbrev pub remove_v004 : Option rl.Log → Act (Unit {0})
  remove_v004 none = fails
  remove_v004 (some log) =
      write (λ d. record d { v004_snapshot = none }) >> write (λ d. record d { v004 = none })

  abbrev pub clean_from : List Tree → Option DataVersion → Bool → Header → Act Header
  clean_from names none cleaning h = fails
  clean_from names (some to) true h = do
    _ ← remove_v003_logs names
    _ ← remove_v003_snapshot
    finish_upgrading h
  clean_from names (some to) false h = do _ ← λ d. remove_v004 d.v004 d; pure h

  unfoldable pub clean_in_progress_v003_to_v004 : List Tree → Header → Act Header
  unfolding remove_v003_logs remove_v003_snapshot finish_upgrading
  clean_in_progress_v003_to_v004 names h = clean_from names h.upgrading h.cleaning h

  -- The other versions are `unreachable!`.
  abbrev pub clean_to : List Tree → DataVersion → Header → Act Header
  clean_to names v004 h = clean_in_progress_v003_to_v004 names h
  clean_to names _ h = fails

  abbrev pub clean_unfinished : List Tree → Option DataVersion → Header → Act Header
  clean_unfinished names none h = pure h
  clean_unfinished names (some to) h = do
    h1 ← clean_to names to h
    let h2 : Header = record h1 { upgrading = none }
    _ ← write_header h2
    pure h2

  abbrev pub upgrade_from : List Tree → DataVersion → Header → Act Header
  upgrade_from names v003 h = upgrade_v003_to_v004 names h
  upgrade_from names _ h = fails

  abbrev pub is_latest : DataVersion → Bool
  is_latest v004 = true
  is_latest _ = false

  -- The loop, with fuel: no version but V003 is upgraded, and that in one round.
  unfoldable pub upgrade_loop : ℕ → List Tree → Header → Act Header
  unfolding upgrade_v003_to_v004
  upgrade_loop zero names h = fails
  upgrade_loop (suc fuel) names h =
      if is_latest h.version
      then pure h
      else upgrade_from names h.version h >>= λ h'. upgrade_loop fuel names h'

  unfoldable pub upgrade : List Tree → Header → Act Header
  unfolding clean_in_progress_v003_to_v004 upgrade_loop
  upgrade names h = clean_unfinished names h.upgrading h >>= λ h'. upgrade_loop 2 names h'

  -- A start of the node: `OnDisk::open`, then `upgrade`
  unfoldable pub start : List Tree → Act Header
  unfolding open_disk upgrade
  start names = open_disk >>= λ h. upgrade names h
