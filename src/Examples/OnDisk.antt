-- ===== src/Examples/OnDisk.antt =====
-- A disk of V003 whose upgrade crashes, with a log of V004 in memory.
use databend_meta.Common.{◌≡◌, refl, inl, inr, false, Option, none, some, List, [], ◌∷◌, ℕ}
use databend_meta.Types.SysData.{LogId}
use databend_meta.Applier.Command
use databend_meta.Applier.Command.{EntryPayload}
use databend_meta.OnDisk.Import
use databend_meta.OnDisk.Import.{RaftStoreEntry, Vote, RaftLog, Importer}
use databend_meta.OnDisk.Disk.{Disk, header_tree, raft_log_tree, raft_state_tree, Tree}
use databend_meta.OnDisk.Upgrade
use databend_meta.OnDisk.Phases.{
  Data, Imports, whole, upgraded, header_v003, header_v004, no_header, unpurged, import_all,
}
use databend_meta.OnDisk.Crash.{Crashes, no_crash, crash, start-Crashes}
use databend_meta.Examples.{log_id}

record MemoryLog : Type 0 where
  entries : List (LogId × EntryPayload)
  user_data : Option ℕ
  vote : Option Vote
  committed : Option LogId
  purged : Option LogId

abbrev memory_log : RaftLog
memory_log = record {
  Log = MemoryLog;
  empty = record { entries = []; user_data = none; vote = none; committed = none; purged = none };
  append = λ id payload log. some (record log { entries = (id, payload) ∷ log.entries });
  save_user_data = λ n log. some (record log { user_data = n });
  save_vote = λ v log. some (record log { vote = some v });
  commit = λ id log. some (record log { committed = some id });
  purge = λ id log. some (record log { purged = some id });
  max = λ a b. b;
}

abbrev old_logs : List RaftStoreEntry
old_logs =
    Import.log_meta (log_id 4)
    ∷ Import.logs (log_id 4) Command.blank
    ∷ Import.logs (log_id 5) Command.blank
    ∷ []

abbrev old_states : List RaftStoreEntry
old_states =
    Import.raft_state_kv (Import.node_id_value 1)
    ∷ Import.raft_state_kv (Import.hard_state (record { term = 1; node_id = 1 }))
    ∷ []

-- Log 4 was purged; a snapshot is a number here.
abbrev old_data : Data memory_log ℕ
old_data = record {
  raft_log = old_logs;
  raft_state = old_states;
  snapshot = some 7;
  importer = record {
    raft_log = record {
      entries = (log_id 5, Command.blank) ∷ [];
      user_data = some 1;
      vote = some (record { term = 1; node_id = 1 });
      committed = none;
      purged = some (log_id 4);
    };
    max_log_id = some (log_id 5);
  };
}

old_data-Imports : Imports memory_log ℕ old_data
unfolding unpurged import_all Upgrade.last_purged
old_data-Imports = refl

abbrev trees : List Tree
trees = header_tree ∷ raft_log_tree ∷ raft_state_tree ∷ []

abbrev before : Disk memory_log.Log ℕ
before = whole memory_log ℕ old_data none none none none

-- The first start crashes after it wrote the header of V003.
abbrev opened : Disk memory_log.Log ℕ
opened = record before { v004 = some memory_log.empty; header = some header_v003 }

one_crash : Crashes memory_log ℕ trees before opened
unfolding Upgrade.start
one_crash = crash (inr (inl refl)) no_crash

start-Crashes_example :
    (Upgrade.start memory_log ℕ trees opened).1 ≡ some (header_v004, upgraded memory_log ℕ old_data)
start-Crashes_example =
    start-Crashes memory_log ℕ old_data old_data-Imports trees (no_header false) one_crash
