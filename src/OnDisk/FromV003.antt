-- ===== src/OnDisk/FromV003.antt =====
-- The upgrade of V003 of ondisk/upgrade_to_v004.rs, by the phases that it passes through.
use databend_meta.Common.{
  ℕ, ◌≡◌, refl, sym, ◌∙◌, if◌then◌else◌, subst, ap, Bool, true, false, Option, none, some, List, [],
  ◌∷◌, arith,
}
use databend_meta.OnDisk.Version.{v004, Header}
use databend_meta.OnDisk.Import
use databend_meta.OnDisk.Import.{
  RaftStoreEntry, RaftLog, Importer, import_raft_store_entry, upgrade_entry,
}
use databend_meta.OnDisk.Disk.{Tree, Sled, Disk, drop_tree, pure, write, ◌>>=◌}
use databend_meta.OnDisk.Upgrade
use databend_meta.OnDisk.Upgrade.{last_purged, next_index, skips, no_sled}
use databend_meta.OnDisk.Ensures.{
  Ensures, Ends, Ensures-pure, Ensures-passed, Ensures-after, Ensures-then,
}
use databend_meta.OnDisk.Phases.{
  header_v003, copying_header, cleaning_header, header_v004, unpurged, import_all, Imports, Data,
  Phase, whole, sled_of, dirs, imported_to, upgraded, with_header, copying, cleaning, finished,
}

skips-zero : (e : RaftStoreEntry) → skips 0 e ≡ false
skips-zero (Import.log_entry id payload) = ground arith
skips-zero _ = refl

unpurged-0 : (es : List RaftStoreEntry) → unpurged 0 es ≡ es
unfolding unpurged
unpurged-0 [] = refl
unpurged-0 (e ∷ es) = rw (skips-zero (upgrade_entry e), unpurged-0 es)

module _ (rl : RaftLog) (Snapshot : Type 0) (old : Data rl Snapshot) where
  abbrev pub Sure :
      {A : Type 0}
      → A
      → Disk rl.Log Snapshot
      → List (Disk rl.Log Snapshot) × Option (A × Disk rl.Log Snapshot)
      → Type 0
  Sure a d r = Ensures (Phase rl Snapshot old) (Ends a d) r

  abbrev copied : Option Header → Importer rl.Log → Option Snapshot → Disk rl.Log Snapshot
  copied sled_h log s = whole rl Snapshot old (some copying_header) sled_h (some log.raft_log) s

  import_one-Sure :
      (b : Bool) (r : Option (Importer rl.Log)) (es : List RaftStoreEntry) (first : ℕ)
      (log log' : Importer rl.Log) (sled_h : Option Header) (s : Option Snapshot)
      (rest : (l : Importer rl.Log)
        → import_all rl Snapshot (some l) (unpurged first es) ≡ some log'
        → Sure log'
            (copied sled_h log' s)
            (Upgrade.import_entries rl Snapshot first es l (copied sled_h l s)))
      → import_all rl Snapshot (if b then some log else r) (unpurged first es) ≡ some log'
      → Sure log' (copied sled_h log' s) (
          ◌>>=◌
            (if b then pure log else Upgrade.imported rl Snapshot r)
            (λ l. Upgrade.import_entries rl Snapshot first es l)
            (copied sled_h log s))
  unfolding import_all
  import_one-Sure true r es first log log' sled_h s rest h = rest log h
  import_one-Sure false none es first log log' sled_h s rest h = absurd cc
  import_one-Sure false (some l) es first log log' sled_h s rest h =
      Ensures-passed _ _ (copying sled_h (some l.raft_log) s) (rest l h)

  import_all-skip :
      (b : Bool) (e : RaftStoreEntry) (es : List RaftStoreEntry) (log : Importer rl.Log)
      → import_all rl Snapshot (some log) (if b then es else (e ∷ es))
        ≡ import_all rl Snapshot
            (if b then some log else import_raft_store_entry rl (upgrade_entry e) log)
            es
  unfolding import_all
  import_all-skip true e es log = refl
  import_all-skip false e es log = refl

  import_entries-Sure :
      (first : ℕ) (es : List RaftStoreEntry) (log log' : Importer rl.Log) (sled_h : Option Header)
      (s : Option Snapshot)
      → import_all rl Snapshot (some log) (unpurged first es) ≡ some log'
      → Sure log'
          (copied sled_h log' s)
          (Upgrade.import_entries rl Snapshot first es log (copied sled_h log s))
  unfolding Upgrade.import_entries import_all unpurged
  import_entries-Sure first [] log log' sled_h s h =
      let same : log ≡ log' = cc in Ensures-pure log _ (same, ap (λ x. copied sled_h x s) same)
  import_entries-Sure first (e ∷ es) log log' sled_h s h =
      import_one-Sure (skips first (upgrade_entry e))
        (import_raft_store_entry rl (upgrade_entry e) log) es first log log' sled_h s
        (λ l. import_entries-Sure first es l log' sled_h s)
        (sym (import_all-skip (skips first (upgrade_entry e)) e (unpurged first es) log) ∙ h)

  drop_trees-Sure :
      (names : List Tree) (sled : Sled) (s : Option Snapshot)
      → Ensures
          (Phase rl Snapshot old)
          (λ _ d. (sled' : Sled) × (d ≡ imported_to rl Snapshot old cleaning_header sled' s))
          (Upgrade.drop_trees rl Snapshot names
            (imported_to rl Snapshot old cleaning_header sled s))
  drop_trees-Sure [] sled s = Ensures-pure tt _ (sled, refl)
  drop_trees-Sure (t ∷ ts) sled s =
      Ensures-passed _ _ (cleaning (drop_tree t sled) s) (drop_trees-Sure ts (drop_tree t sled) s)

  import_all-mid :
      (o : Option (Importer rl.Log)) (es : List RaftStoreEntry) (log : Importer rl.Log)
      → import_all rl Snapshot o es ≡ some log
      → (m : Importer rl.Log) × ((o ≡ some m) × (import_all rl Snapshot (some m) es ≡ some log))
  unfolding import_all
  import_all-mid none es log h = absurd cc
  import_all-mid (some m) es log h = (m, (refl, h))

  copied_snapshot : (s : Option Snapshot) → elim s [ none ↦ none | some x ↦ some x ] ≡ s
  copied_snapshot none = refl
  copied_snapshot (some x) = refl

  remove_v003_logs-Sure :
      (names : List Tree) (sled : Sled) (s : Option Snapshot)
      → Sure tt (imported_to rl Snapshot old cleaning_header no_sled s) (
          Upgrade.remove_v003_logs rl Snapshot names
            (imported_to rl Snapshot old cleaning_header sled s))
  unfolding Upgrade.remove_v003_logs
  remove_v003_logs-Sure names sled s = Ensures-after _ _ _ (drop_trees-Sure names sled s) (λ _ d q.
      subst
        (λ d'.
          Sure tt (imported_to rl Snapshot old cleaning_header no_sled s)
            (write (λ x. record x { sled = no_sled }) d'))
        (sym q.1) (Ensures-passed _ _ (cleaning no_sled s) (Ensures-pure tt _ (refl, refl))))

  -- From the header that says that V003 is cleaned up
  pub cleanup-Sure :
      (names : List Tree) (sled : Sled) (s : Option Snapshot)
      → Sure header_v004 (upgraded rl Snapshot old) (
          Upgrade.clean_from rl Snapshot names
            (some v004)
            true
            cleaning_header
            (imported_to rl Snapshot old cleaning_header sled s))
  unfolding Upgrade.remove_v003_snapshot Upgrade.finish_upgrading
  cleanup-Sure names sled s = Ensures-then _ _ _ (remove_v003_logs-Sure names sled s) (
      Ensures-passed _ _ (cleaning no_sled none)
        (Ensures-passed _ _ finished (Ensures-pure header_v004 _ (refl, refl))))

  -- The steps after the copy
  abbrev clean : List Tree → Upgrade.Act rl Snapshot Header
  clean names = do
    h ← Upgrade.clean_upgrading rl Snapshot copying_header
    _ ← Upgrade.remove_v003_logs rl Snapshot names
    _ ← Upgrade.remove_v003_snapshot rl Snapshot
    Upgrade.finish_upgrading rl Snapshot h

  clean-Sure :
      (names : List Tree) (sled_h : Option Header) (s : Option Snapshot)
      → s ≡ old.snapshot
      → Sure header_v004 (upgraded rl Snapshot old) (clean names (copied sled_h old.importer s))
  unfolding Upgrade.clean_upgrading
  clean-Sure names sled_h s e =
      subst
        (λ x.
          Sure header_v004 (upgraded rl Snapshot old) (clean names (copied sled_h old.importer x)))
        (sym e)
        (Ensures-passed _ _ (cleaning (sled_of rl Snapshot old sled_h) old.snapshot)
          (cleanup-Sure names (sled_of rl Snapshot old sled_h) old.snapshot))

  upgrade_empty-Sure :
      (imports : Imports rl Snapshot old) (names : List Tree) (sled_h : Option Header)
      → Sure header_v004 (upgraded rl Snapshot old) (
          Upgrade.upgrade_v003_to_v004 rl Snapshot names header_v003
            (whole rl Snapshot old (some header_v003) sled_h (some rl.empty) none))
  unfolding Upgrade.upgrade_v003_to_v004
  upgrade_empty-Sure imports names sled_h =
      let (mid, (logs, states)) = import_all-mid _ old.raft_state old.importer imports in
      Ensures-passed _ _ (with_header sled_h true) (
        Ensures-passed _ _ (copying sled_h (some rl.empty) none) (
          Ensures-then _ _ _
            (import_entries-Sure _ old.raft_log (Import.new rl.empty) mid sled_h none logs)
            (Ensures-then _ _ _
              (import_entries-Sure 0 old.raft_state mid old.importer sled_h none
                (ap (import_all rl Snapshot (some mid)) (unpurged-0 old.raft_state) ∙ states))
              (Ensures-passed _ _ (copying sled_h (some old.importer.raft_log) _)
                (clean-Sure names sled_h _ (copied_snapshot old.snapshot))))))

  pub upgrade_v003_to_v004-Sure :
      (imports : Imports rl Snapshot old) (names : List Tree) (sled_h : Option Header) (b : Bool)
      → Sure header_v004 (upgraded rl Snapshot old) (
          Upgrade.upgrade_v003_to_v004 rl Snapshot names header_v003
            (whole rl Snapshot old (some header_v003) sled_h (dirs rl Snapshot old b) none))
  unfolding Upgrade.upgrade_v003_to_v004
  upgrade_v003_to_v004-Sure imports names sled_h true = upgrade_empty-Sure imports names sled_h
  upgrade_v003_to_v004-Sure imports names sled_h false = upgrade_empty-Sure imports names sled_h
