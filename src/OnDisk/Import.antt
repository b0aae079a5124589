-- ===== src/OnDisk/Import.antt =====
-- `RaftStoreEntry::upgrade` of key_spaces.rs and raft_log_v004/importer.rs: the records of the old stores, and how they
-- are written to the log of V004. That log is a third-party crate.
use databend_meta.Common.{ℕ, Option, none, some, option_map}
use databend_meta.Types.SysData.{LogId}
use databend_meta.Applier.Command.{EntryPayload}

-- `Vote` of the crate openraft, by its content
pub record Vote : Type 0 where
  pub term : ℕ
  pub node_id : ℕ

pub data RaftStateValue : Type 0 where
  node_id_value : ℕ → RaftStateValue
  hard_state : Vote → RaftStateValue
  state_machine_id : ℕ → ℕ → RaftStateValue
  committed_value : Option LogId → RaftStateValue

-- The keys, and the content of the records that are passed over or refused, are left out.
pub data RaftStoreEntry : Type 0 where
  data_header : RaftStoreEntry
  logs : LogId → EntryPayload → RaftStoreEntry
  nodes : RaftStoreEntry
  state_machine_meta : RaftStoreEntry
  raft_state_kv : RaftStateValue → RaftStoreEntry
  expire : RaftStoreEntry
  generic_kv : RaftStoreEntry
  sequences : RaftStoreEntry
  log_meta : LogId → RaftStoreEntry
  log_entry : LogId → EntryPayload → RaftStoreEntry
  node_id : Option ℕ → RaftStoreEntry
  vote : Option Vote → RaftStoreEntry
  committed : Option LogId → RaftStoreEntry
  purged : Option LogId → RaftStoreEntry

unfoldable pub upgrade_entry : RaftStoreEntry → RaftStoreEntry
upgrade_entry (logs id payload) = log_entry id payload
upgrade_entry (raft_state_kv (node_id_value n)) = node_id (some n)
upgrade_entry (raft_state_kv (hard_state v)) = vote (some v)
upgrade_entry (raft_state_kv (committed_value c)) = committed c
upgrade_entry (raft_state_kv (state_machine_id a b)) = raft_state_kv (state_machine_id a b)
upgrade_entry (log_meta id) = purged (some id)
upgrade_entry e = e

-- `RaftLogV004`: its content and the writes to it, each of which may be refused, and the order of log ids of openraft.
pub record RaftLog : Type 1 where
  pub Log : Type 0
  pub empty : Log
  pub append : LogId → EntryPayload → Log → Option Log
  pub save_user_data : Option ℕ → Log → Option Log
  pub save_vote : Vote → Log → Option Log
  pub commit : LogId → Log → Option Log
  pub purge : LogId → Log → Option Log
  pub max : Option LogId → Option LogId → Option LogId

pub record Importer (Log : Type 0) : Type 0 where
  pub raft_log : Log
  pub max_log_id : Option LogId

abbrev pub new : {Log : Type 0} → Log → Importer Log
new log = record { raft_log = log; max_log_id = none }

module _ (rl : RaftLog) where
  abbrev pub written : Option rl.Log → Importer rl.Log → Option (Importer rl.Log)
  written o imp = option_map (λ log. record imp { raft_log = log }) o

  abbrev pub on_some :
      {A : Type 0}
      → (A → rl.Log → Option rl.Log)
      → Option A
      → Importer rl.Log
      → Option (Importer rl.Log)
  on_some f none imp = some imp
  on_some f (some a) imp = written (f a imp.raft_log) imp

  abbrev pub appended : LogId → Option (Importer rl.Log) → Option (Importer rl.Log)
  appended id none = none
  appended id (some imp) = some (record imp { max_log_id = rl.max imp.max_log_id (some id) })

  -- `import_raft_store_entry`; `none` is the panic on a record that was not upgraded, or the error of the write.
  unfoldable pub import_raft_store_entry :
      RaftStoreEntry → Importer rl.Log → Option (Importer rl.Log)
  import_raft_store_entry data_header imp = some imp
  import_raft_store_entry (log_entry id payload) imp =
      appended id (written (rl.append id payload imp.raft_log) imp)
  import_raft_store_entry (node_id n) imp = written (rl.save_user_data n imp.raft_log) imp
  import_raft_store_entry (vote v) imp = on_some rl.save_vote v imp
  import_raft_store_entry (committed c) imp = on_some rl.commit c imp
  import_raft_store_entry (purged p) imp = on_some rl.purge p imp
  import_raft_store_entry _ imp = none
