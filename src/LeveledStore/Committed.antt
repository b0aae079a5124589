-- ===== src/LeveledStore/Committed.antt =====
-- Changes are committed to the writable level.
use databend_meta.Common.{
  ℕ, ◌≡◌, ◌≤◌, ◌<◌, refl, sym, subst, ap, arith, false, not, Option, none, some, [], ◌∷◌, All,
  if◌then◌else◌,
}
use databend_meta.Types.SysData.{curr_seq}
use databend_meta.LeveledStore.Mvcc.{Space, user, expire, Mvcc, MvccLaws}
use databend_meta.LeveledStore.Level.{Level, Immutable, level_get}
use databend_meta.LeveledStore.Levels.{ImmutableLevels}
use databend_meta.LeveledStore.LeveledMap.{Db, LeveledMap, map_get, data_get, commit, updated}
use databend_meta.LeveledStore.Reads.{IsAbove}
use databend_meta.LeveledStore.Valid.{IsOld}
use databend_meta.LeveledStore.Snapshot.{MapIsValid}

module _ (tables : Space → Mvcc) (db : Db tables) (laws : (n : Space) → MvccLaws (tables n))
    (s : ℕ) where
  -- What a commit writes is newer than the snapshot.
  abbrev pub CommitsAfter : (n : Space) → Option (tables n).Changes → Type 0
  CommitsAfter n none = Unit {0}
  CommitsAfter n (some c) = s < (tables n).first_seq c

  updated_get :
      (n : Space) (c : Option (tables n).Changes) (t : (tables n).Table) (k : (tables n).Key)
      → CommitsAfter n c
      → (tables n).get (updated tables db (tables n) c t) k s ≡ (tables n).get t k s
  updated_get n none t k h = refl
  updated_get n (some c) t k h = (laws n).get-apply_changes t c s k h

  committed_get :
      (lm : LeveledMap tables db) (seq : ℕ) (us : Option (tables user).Changes)
      (es : Option (tables expire).Changes)
      → CommitsAfter user us
      → CommitsAfter expire es
      → (n : Space) (k : (tables n).Key)
      → level_get tables n (commit tables db seq us es lm).writable k s
        ≡ level_get tables n lm.writable k s
  unfolding commit
  committed_get lm seq us es u e user k = updated_get user us lm.writable.kv k u
  committed_get lm seq us es u e expire k = updated_get expire es lm.writable.expired k e

  newer_still :
      (l l' : Level tables) (ls : ImmutableLevels tables)
      → ((n : Space) (k : (tables n).Key) → level_get tables n l' k s ≡ level_get tables n l k s)
      → IsAbove tables laws s l ls
      → IsAbove tables laws s l' ls
  newer_still l l' [] same h = tt
  newer_still l l' (j ∷ js) same (first, rest) = (
    (λ n k found other.
        subst
          (λ v.
            (tables n).internal_seq (level_get tables n j.level k s) ≤ (tables n).internal_seq v)
          (sym (same n k))
          (first n k (subst (λ v. (tables n).is_not_found v ≡ false) (same n k) found) other)),
    newer_still l l' js same rest,
  )

  All-IsOld-later :
      (ls : ImmutableLevels tables) (seq seq' uniq : ℕ)
      → seq ≤ seq'
      → All (λ (i : Immutable tables). IsOld seq uniq i.index) ls
      → All (λ (i : Immutable tables). IsOld seq' uniq i.index) ls
  All-IsOld-later [] seq seq' uniq p h = tt
  All-IsOld-later (j ∷ js) seq seq' uniq p (first, rest) =
      (omega (arith, p, first), All-IsOld-later js seq seq' uniq p rest)

  -- A commit of newer changes keeps the map valid, and the snapshot reads what it read.
  pub commit_lem :
      (lm : LeveledMap tables db) (seq : ℕ) (us : Option (tables user).Changes)
      (es : Option (tables expire).Changes)
      → MapIsValid tables db laws s lm
      → curr_seq lm.writable.sys_data ≤ seq
      → CommitsAfter user us
      → CommitsAfter expire es
      → MapIsValid tables db laws s (commit tables db seq us es lm)
        × ((n : Space) (k : (tables n).Key)
            → map_get tables db n (commit tables db seq us es lm) k s ≡ map_get tables db n lm k s)
  unfolding map_get commit curr_seq
  commit_lem lm seq us es v up u e =
      let same = committed_get lm seq us es u e in
      (
        record {
          descending = v.descending;
          old =
              All-IsOld-later lm.immutable.levels (curr_seq lm.writable.sys_data) seq lm.uniq up
                v.old;
          versions = v.versions;
          newest =
              newer_still lm.writable (commit tables db seq us es lm).writable lm.immutable.levels
                same v.newest;
        },
        λ n k.
            ap
              (λ w.
                if not ((tables n).is_not_found w)
                then w
                else data_get tables db n lm.immutable k s)
              (same n k),
      )
