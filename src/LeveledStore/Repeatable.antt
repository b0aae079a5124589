-- ===== src/LeveledStore/Repeatable.antt =====
-- A snapshot reads the same whatever is committed and frozen behind it.
use databend_meta.Common.{ℕ, ◌≡◌, ◌∙◌, ◌≤◌, refl, subst, ap, Option, some}
use databend_meta.Types.SysData.{curr_seq}
use databend_meta.LeveledStore.Mvcc.{Space, user, expire, Mvcc, MvccLaws}
use databend_meta.LeveledStore.LeveledMap.{Db, LeveledMap, freeze_writable, commit}
use databend_meta.LeveledStore.Snapshot.{reads, MapIsValid, freeze_writable_lem}
use databend_meta.LeveledStore.Committed.{CommitsAfter, commit_lem}

module _ (tables : Space → Mvcc) (db : Db tables) (laws : (n : Space) → MvccLaws (tables n))
    (s : ℕ) where
  -- One step of a map while a snapshot at `s` is held: a commit of changes that are newer than the snapshot, at a sequence
  -- number that does not go back, or a freeze of the writable level.
  pub data Step : LeveledMap tables db → LeveledMap tables db → Type 0 where
    committed :
        {lm : LeveledMap tables db} (seq : ℕ) (us : Option (tables user).Changes)
        (es : Option (tables expire).Changes)
        → curr_seq lm.writable.sys_data ≤ seq
        → CommitsAfter tables db laws s user us
        → CommitsAfter tables db laws s expire es
        → Step lm (commit tables db seq us es lm)
    frozen : {lm lm' : LeveledMap tables db} → freeze_writable tables db lm ≡ some lm' → Step lm lm'

  pub data Steps : LeveledMap tables db → LeveledMap tables db → Type 0 where
    done : {lm : LeveledMap tables db} → Steps lm lm
    next : {a b c : LeveledMap tables db} → Step a b → Steps b c → Steps a c

  -- The map is valid for the snapshot, which reads of every key what it read.
  abbrev pub Same : LeveledMap tables db → LeveledMap tables db → Type 0
  Same lm lm' =
      MapIsValid tables db laws s lm'
      × ((n : Space) (k : (tables n).Key)
          → reads tables db laws s n lm' k ≡ reads tables db laws s n lm k)

  pub Same-result :
      {lm' lm'' : LeveledMap tables db} (lm : LeveledMap tables db)
      (r : Option (LeveledMap tables db))
      → r ≡ some lm''
      → r ≡ some lm'
      → Same lm lm''
      → Same lm lm'
  Same-result {lm' = lm'} {lm'' = lm''} lm r e e' same =
      let same_map : lm'' ≡ lm' = cc in subst (Same lm) same_map same

  Step-Same :
      {lm lm' : LeveledMap tables db} → MapIsValid tables db laws s lm → Step lm lm' → Same lm lm'
  Step-Same {lm = lm} v (committed seq us es up u e) =
      let (valid, same) = commit_lem tables db laws s lm seq us es v up u e in
      (valid, λ n k. ap (tables n).value (same n k))
  Step-Same {lm = lm} v (frozen e) =
      let (after, e', valid, same) = freeze_writable_lem tables db laws s lm v in
      Same-result lm (freeze_writable tables db lm) e' e
        (valid, λ n k. ap (tables n).value (same n k))

  -- Where the map is valid for a snapshot: after any sequence of freezes, and of commits that each have only changes that
  -- are newer than the snapshot and a sequence number that is not below that of the map, the map is valid and the snapshot
  -- reads the value of every key that it read before.
  pub reads-Steps :
      {lm lm' : LeveledMap tables db}
      → MapIsValid tables db laws s lm
      → Steps lm lm'
      → MapIsValid tables db laws s lm'
        × ((n : Space) (k : (tables n).Key)
            → reads tables db laws s n lm' k ≡ reads tables db laws s n lm k)
  reads-Steps v done = (v, λ n k. refl)
  reads-Steps v (next step rest) =
      let (valid, same) = Step-Same v step in
      let (valid', same') = reads-Steps valid rest in (valid', λ n k. same' n k ∙ same n k)
