-- ===== src/LeveledStore/Mvcc.antt =====
-- What is called of the crate map-api: tables of versioned entries (`mvcc::Table`), and the laws that are relied on.
use databend_meta.Common.{ℕ, ◌≡◌, ◌≤◌, ◌<◌, Bool, true, Option, none, if◌then◌else◌, ltb}

-- The two sub tables of a level: `UserKey` to `MetaValue`, and `ExpireKey` to `String`.
pub data Space : Type 0 where
  user expire : Space

pub record Mvcc : Type 1 where
  pub Key : Type 0
  -- `SeqMarked<V>`, with its internal sequence number
  pub Marked : Type 0
  pub not_found : Marked
  pub is_not_found : Marked → Bool
  pub internal_seq : Marked → ℕ
  -- the value, which a tombstone and a missing version have none of
  pub Value : Type 0
  pub value : Marked → Option Value
  pub Table : Type 0
  pub empty : Table
  -- `inner.len()`
  pub len : Table → ℕ
  -- the newest version of a key that a snapshot sees
  pub get : Table → Key → ℕ → Marked
  -- `Table::compact`, with the sequence number of the oldest snapshot that is kept
  pub compact : Table → Table → ℕ → Table
  pub Changes : Type 0
  -- `apply_changes`, and the least internal sequence number of the changes
  pub first_seq : Changes → ℕ
  pub apply_changes : Table → Changes → Table

-- Of two versions of a key the one with the greater internal sequence number; one that is missing gives way.
abbrev pub later : (m : Mvcc) → m.Marked → m.Marked → m.Marked
later m a b =
    if m.is_not_found a
    then b
    else if m.is_not_found b
    then a
    else if ltb (m.internal_seq a) (m.internal_seq b)
    then b
    else a

pub record MvccLaws (m : Mvcc) : Type 0 where
  pub not_found_lem : m.is_not_found m.not_found ≡ true
  pub value-not_found : (v : m.Marked) → m.is_not_found v ≡ true → m.value v ≡ none
  pub get-empty : (k : m.Key) (s : ℕ) → m.get m.empty k s ≡ m.not_found
  -- A merge keeps, for a snapshot that is not older than the oldest one kept, the later version of each key.
  pub get-compact :
      (a b : m.Table) (min_seq s : ℕ) (k : m.Key)
      → min_seq ≤ s
      → m.get (m.compact a b min_seq) k s ≡ later m (m.get a k s) (m.get b k s)
  -- A snapshot does not see changes that are newer.
  pub get-apply_changes :
      (t : m.Table) (c : m.Changes) (s : ℕ) (k : m.Key)
      → s < m.first_seq c
      → m.get (m.apply_changes t c) k s ≡ m.get t k s
