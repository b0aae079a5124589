-- ===== src/OnDisk/Phases.antt =====
-- The phases of the upgrade of ondisk/upgrade_to_v004.rs, by the disks that a crash leaves in them.
use databend_meta.Common.{
  ℕ, ◌≡◌, Bool, true, false, Option, none, some, List, [], ◌∷◌, if◌then◌else◌,
}
use databend_meta.OnDisk.Version.{v003, v004, Header}
use databend_meta.OnDisk.Import
use databend_meta.OnDisk.Import.{
  RaftStoreEntry, RaftLog, Importer, import_raft_store_entry, upgrade_entry,
}
use databend_meta.OnDisk.Disk.{Sled, Disk}
use databend_meta.OnDisk.Upgrade.{last_purged, next_index, skips, no_sled}

abbrev pub header_v003 : Header
header_v003 = record { version = v003; upgrading = none; cleaning = false }

abbrev pub copying_header : Header
copying_header = record { version = v003; upgrading = some v004; cleaning = false }

abbrev pub cleaning_header : Header
cleaning_header = record { version = v003; upgrading = some v004; cleaning = true }

abbrev pub header_v004 : Header
header_v004 = record { version = v004; upgrading = none; cleaning = false }

-- The records with the log entries before an index left out
unfoldable pub unpurged : ℕ → List RaftStoreEntry → List RaftStoreEntry
unfolding upgrade_entry
unpurged first [] = []
unpurged first (e ∷ es) =
    if skips first (upgrade_entry e) then unpurged first es else (e ∷ unpurged first es)

module _ (rl : RaftLog) (Snapshot : Type 0) where
  -- Records imported one after the other
  unfoldable pub import_all :
      Option (Importer rl.Log) → List RaftStoreEntry → Option (Importer rl.Log)
  unfolding upgrade_entry import_raft_store_entry
  import_all none es = none
  import_all (some imp) [] = some imp
  import_all (some imp) (e ∷ es) = import_all (import_raft_store_entry rl (upgrade_entry e) imp) es

  -- The data of V003, and the log that it is imported to.
  pub record Data : Type 0 where
    pub raft_log : List RaftStoreEntry
    pub raft_state : List RaftStoreEntry
    pub snapshot : Option Snapshot
    pub importer : Importer rl.Log

  -- The records of the old stores can be written to an empty log, one after the other, and lead to that importer.
  abbrev pub Imports : Data → Type 0
  Imports old =
      import_all
        (import_all (some (Import.new rl.empty))
          (unpurged (next_index (last_purged old.raft_log)) old.raft_log))
        old.raft_state
      ≡ some old.importer

  module _ (old : Data) where
    abbrev pub sled_of : Option Header → Sled
    sled_of h = record { header = h; raft_log = old.raft_log; raft_state = old.raft_state }

    abbrev pub dirs : Bool → Option rl.Log
    dirs true = some rl.empty
    dirs false = none

    -- The data of V003 is whole and no upgrade is in progress.
    abbrev pub whole :
        Option Header → Option Header → Option rl.Log → Option Snapshot → Disk rl.Log Snapshot
    whole h sled_h log s = record {
      header = h;
      sled = sled_of sled_h;
      v003_snapshot = old.snapshot;
      v004 = log;
      v004_snapshot = s;
    }

    -- The data of V004 is whole, and an upgrade removes the data of V003.
    abbrev pub imported_to : Header → Sled → Option Snapshot → Disk rl.Log Snapshot
    imported_to h sled s = record {
      header = some h;
      sled = sled;
      v003_snapshot = s;
      v004 = some old.importer.raft_log;
      v004_snapshot = old.snapshot;
    }

    abbrev pub upgraded : Disk rl.Log Snapshot
    upgraded = imported_to header_v004 no_sled none

    pub data Phase : Disk rl.Log Snapshot → Type 0 where
      with_header :
          (sled_h : Option Header) (b : Bool)
          → Phase (whole (some header_v003) sled_h (dirs b) none)
      header_in_sled : (b : Bool) → Phase (whole none (some header_v003) (dirs b) none)
      no_header : (b : Bool) → Phase (whole none none (dirs b) none)
      copying :
          (sled_h : Option Header) (log : Option rl.Log) (s : Option Snapshot)
          → Phase (whole (some copying_header) sled_h log s)
      cleaning : (sled : Sled) (s : Option Snapshot) → Phase (imported_to cleaning_header sled s)
      finished : Phase upgraded
