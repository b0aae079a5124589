-- ===== src/Applier/Expired.antt =====
-- The keys that are collected for deletion before an entry is applied.
use databend_meta.Common.{
  ℕ, ◌≤◌, ◌≡◌, refl, arith, true, List, [], ◌∷◌, Text, ok, err, IoStream, no_error, ltb,
  if◌then◌else◌, Bool-cases, inl, inr,
}
use databend_meta.StateMachine.Api.{StateMachineApi, ExpireKey}
use databend_meta.StateMachine.Laws.{ValueLaws}
use databend_meta.Applier.Clean.{collect_expired}

-- No item of the stream expires before `t`.
abbrev pub NotBefore : ℕ → IoStream (ExpireKey × Text) → Type 0
NotBefore t [] = Unit
NotBefore t (ok (e, k) ∷ strm) = (t ≤ e.time_ms) × NotBefore t strm
NotBefore t (err x ∷ strm) = NotBefore t strm

-- The order in which the index is listed.
abbrev pub Ascending : IoStream (ExpireKey × Text) → Type 0
Ascending [] = Unit
Ascending (ok (e, k) ∷ strm) = NotBefore e.time_ms strm × Ascending strm
Ascending (err x ∷ strm) = Ascending strm

-- All items of the stream that expire before `now`.
pub expired_before : ℕ → IoStream (ExpireKey × Text) → List (ExpireKey × Text)
expired_before now [] = []
expired_before now (err x ∷ strm) = expired_before now strm
expired_before now (ok (e, k) ∷ strm) =
    let rest = expired_before now strm in if ltb e.time_ms now then (e, k) ∷ rest else rest

none_expired :
    (now t : ℕ) (strm : IoStream (ExpireKey × Text))
    → now ≤ t
    → NotBefore t strm
    → expired_before now strm ≡ []
unfolding expired_before
none_expired now t [] h later = refl
none_expired now t (err x ∷ strm) h later = none_expired now t strm h later
none_expired now t (ok (e, k) ∷ strm) h (first, later) =
    ground (arith, none_expired now t strm h later)

-- From an index that is listed in ascending order and without an error, all that expires before the time is
-- collected, though the collection ends at the first key that does not.
pub collect_expired-expired_before :
    (api : StateMachineApi) (values : ValueLaws api) (now : ℕ) (strm : IoStream (ExpireKey × Text))
    → Ascending strm
    → no_error strm ≡ true
    → collect_expired api now strm ≡ ok (expired_before now strm)
unfolding collect_expired expired_before
collect_expired-expired_before api values now [] order clean = refl
collect_expired-expired_before api values now (err x ∷ strm) order clean = cc
collect_expired-expired_before api values now (ok (e, k) ∷ strm) (later, order) clean =
    rw (values.is_expired_lem e now, collect_expired-expired_before api values now strm order clean)
      (elim (Bool-cases (ltb e.time_ms now)) [
        | inl gone ↦ rw gone
        | inr live ↦ rw (live, none_expired now e.time_ms strm (ground arith) later)
      ])
