-- ===== src/OnDisk/Disk.antt =====
-- The directory of a node, for ondisk/mod.rs and ondisk/upgrade_to_v004.rs. A run passes through states of the disk, one for
-- each write; a crash, or an I/O error, leaves the disk in one of them.
use databend_meta.Common.{Option, none, some, List, [], ◌∷◌, ◌++◌}
use databend_meta.OnDisk.Version.{Header}
use databend_meta.OnDisk.Import.{RaftStoreEntry}

-- The trees of the sled database of V003.
pub data Tree : Type 0 where
  header_tree raft_log_tree raft_state_tree : Tree

pub record Sled : Type 0 where
  pub header : Option Header
  pub raft_log : List RaftStoreEntry
  pub raft_state : List RaftStoreEntry

-- The directory of a node: the header file, the sled database and the snapshot of V003, and the directory of V004 with
-- its log and its snapshot. Each file is whole or absent.
pub record Disk (Log Snapshot : Type 0) : Type 0 where
  pub header : Option Header
  pub sled : Sled
  pub v003_snapshot : Option Snapshot
  pub v004 : Option Log
  pub v004_snapshot : Option Snapshot

abbrev pub drop_tree : Tree → Sled → Sled
drop_tree header_tree s = record s { header = none }
drop_tree raft_log_tree s = record s { raft_log = [] }
drop_tree raft_state_tree s = record s { raft_state = [] }

-- The states passed, and what is returned in the last of them; `none` is a panic or an error.
abbrev pub Run : Type 0 → Type 0 → Type 0
Run S A = S → List S × Option (A × S)

module _ {S : Type 0} where
  abbrev pub after :
      {A B : Type 0} → List S → Option (A × S) → (A → Run S B) → List S × Option (B × S)
  after ps none f = (ps, none)
  after ps (some (a, d)) f = let (qs, r) = f a d in (ps ++ qs, r)

  infixl 5 ◌>>=◌ ◌>>◌
  abbrev pub ◌>>=◌ : {A B : Type 0} → Run S A → (A → Run S B) → Run S B
  ◌>>=◌ m f d = let (ps, r) = m d in after ps r f

  abbrev pub ◌>>◌ : {A B : Type 0} → Run S A → Run S B → Run S B
  m >> k = m >>= λ _. k

  abbrev pub pure : {A : Type 0} → A → Run S A
  pure a d = ([], some (a, d))

  abbrev pub fails : {A : Type 0} → Run S A
  fails d = ([], none)

  abbrev pub write : (S → S) → Run S (Unit {0})
  write f d = (f d ∷ [], some (tt, f d))
