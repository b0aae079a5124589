-- ===== src/OnDisk/Crash.antt =====
-- A start of the node after crashes of earlier starts, for ondisk/mod.rs and ondisk/upgrade_to_v004.rs.
use databend_meta.Common.{
  ◌≡◌, refl, sym, subst, Bool, true, false, Option, none, some, List, [], ◌∷◌, inl, inr, All, Has,
  unwrap_or,
}
use databend_meta.OnDisk.Version.{Header}
use databend_meta.OnDisk.Import.{RaftLog}
use databend_meta.OnDisk.Disk.{Tree, Disk}
use databend_meta.OnDisk.Upgrade
use databend_meta.OnDisk.Ensures.{Ensures-pure, Ensures-passed, Ensures-then}
use databend_meta.OnDisk.Phases.{
  header_v003, header_v004, Data, Imports, Phase, whole, dirs, upgraded, with_header,
  header_in_sled, no_header, copying, cleaning, finished,
}
use databend_meta.OnDisk.FromV003.{Sure, cleanup-Sure, upgrade_v003_to_v004-Sure}

All-Has : {A : Type 0} (P : A → Type 0) (x : A) (xs : List A) → All P xs → Has x xs → P x
All-Has P x [] h i = absurd i
All-Has P x (y ∷ ys) h (inl e) = subst P (sym e) h.0
All-Has P x (y ∷ ys) h (inr i) = All-Has P x ys h.1 i

module _ (rl : RaftLog) (Snapshot : Type 0) (names : List Tree) where
  -- Starts that crash, each in one of the disks that it passes through
  pub data Crashes : Disk rl.Log Snapshot → Disk rl.Log Snapshot → Type 0 where
    no_crash : {d : Disk rl.Log Snapshot} → Crashes d d
    crash :
        {a b c : Disk rl.Log Snapshot}
        → Has b (Upgrade.start rl Snapshot names a).0
        → Crashes b c
        → Crashes a c

module _ (rl : RaftLog) (Snapshot : Type 0) (old : Data rl Snapshot)
    (imports : Imports rl Snapshot old) (names : List Tree) where
  upgrade_loop-Sure :
      (sled_h : Option Header) (b : Bool)
      → Sure rl Snapshot old header_v004 (upgraded rl Snapshot old) (
          Upgrade.upgrade_loop rl Snapshot 2 names header_v003
            (whole rl Snapshot old (some header_v003) sled_h (dirs rl Snapshot old b) none))
  unfolding Upgrade.upgrade_loop
  upgrade_loop-Sure sled_h b =
      Ensures-then _ _ _ (upgrade_v003_to_v004-Sure rl Snapshot old imports names sled_h b)
        (Ensures-pure header_v004 _ (refl, refl))

  -- A start from a disk where no upgrade was begun
  with_header-Sure :
      (sled_h : Option Header)
      → Sure rl Snapshot old header_v004 (upgraded rl Snapshot old) (
          Upgrade.start rl Snapshot names
            (whole rl Snapshot old (some header_v003) sled_h (some rl.empty) none))
  unfolding Upgrade.start
  with_header-Sure sled_h =
      Ensures-passed _ _ (with_header sled_h true) (upgrade_loop-Sure sled_h true)

  header_in_sled-Sure : Sure rl Snapshot old header_v004 (upgraded rl Snapshot old) (
      Upgrade.start rl Snapshot names
        (whole rl Snapshot old none (some header_v003) (some rl.empty) none))
  unfolding Upgrade.start
  header_in_sled-Sure = Ensures-passed _ _ (header_in_sled true) (
      Ensures-passed _ _ (with_header (some header_v003) true)
        (Ensures-passed _ _ (with_header none true) (upgrade_loop-Sure none true)))

  no_header-Sure :
      Sure rl Snapshot old header_v004
        (upgraded rl Snapshot old)
        (Upgrade.start rl Snapshot names (whole rl Snapshot old none none (some rl.empty) none))
  unfolding Upgrade.start
  no_header-Sure =
      Ensures-passed _ _ (no_header true)
        (Ensures-passed _ _ (with_header none true) (upgrade_loop-Sure none true))

  start-Sure :
      (d : Disk rl.Log Snapshot)
      → Phase rl Snapshot old d
      → Sure rl Snapshot old header_v004
          (upgraded rl Snapshot old)
          (Upgrade.start rl Snapshot names d)
  unfolding Upgrade.start
  start-Sure _ (with_header sled_h true) = with_header-Sure sled_h
  start-Sure _ (with_header sled_h false) = with_header-Sure sled_h
  start-Sure _ (header_in_sled true) = header_in_sled-Sure
  start-Sure _ (header_in_sled false) = header_in_sled-Sure
  start-Sure _ (no_header true) = no_header-Sure
  start-Sure _ (no_header false) = no_header-Sure
  start-Sure _ (copying sled_h log s) =
      Ensures-passed _ _ (copying sled_h (some (unwrap_or log rl.empty)) s) (
        Ensures-passed _ _ (copying sled_h (some (unwrap_or log rl.empty)) none) (
          Ensures-passed _ _ (copying sled_h none none)
            (Ensures-passed _ _ (with_header sled_h false) (upgrade_loop-Sure sled_h false))))
  start-Sure _ (cleaning sled s) = Ensures-passed _ _ (cleaning sled s) (
      Ensures-then _ _ _
        (Ensures-then _ _ _ (cleanup-Sure rl Snapshot old names sled s)
          (Ensures-passed _ _ finished (Ensures-pure header_v004 _ (refl, refl))))
        (Ensures-pure header_v004 _ (refl, refl)))
  start-Sure _ finished = Ensures-passed _ _ finished (Ensures-pure header_v004 _ (refl, refl))

  Crashes-Phase :
      {d d' : Disk rl.Log Snapshot}
      → Phase rl Snapshot old d
      → Crashes rl Snapshot names d d'
      → Phase rl Snapshot old d'
  Crashes-Phase p no_crash = p
  Crashes-Phase {d = a} p (crash passed rest) =
      Crashes-Phase (All-Has (Phase rl Snapshot old) _ _ (start-Sure a p).passes passed) rest

  -- Where the disk holds data of V003, by itself or in some phase of its upgrade, and the records of the old logs are
  -- imported by `old.importer`, none of them refused: after any number of starts, each of which crashes after one of its writes, a start that
  -- does not crash returns the header of V004, without an upgrade in progress, and leaves the imported log and the
  -- snapshot of V003 in the directory of V004 and nothing in that of V003.
  pub start-Crashes :
      {d d' : Disk rl.Log Snapshot}
      → Phase rl Snapshot old d
      → Crashes rl Snapshot names d d'
      → (Upgrade.start rl Snapshot names d').1 ≡ some (header_v004, upgraded rl Snapshot old)
  start-Crashes {d'} p crashes =
      let h = start-Sure d' (Crashes-Phase p crashes) in
      let ends = h.ends in let (value, last) = h.holds in cc
