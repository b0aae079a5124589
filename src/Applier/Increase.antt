-- ===== src/Applier/Increase.antt =====
-- A counter that is fetched and increased.
use databend_meta.Common.{
  ℕ, ◌+◌, ◌<◌, max, ◌≡◌, ◌∙◌, refl, subst, sym, ap, arith, true, Option, none, some, Bytes, Result,
  ok, and_then-ok, if◌then◌else◌, unwrap_or, Bool-cases, Option-cases, inl, inr,
}
use databend_meta.Common.{suc, min, not, Bool, true, ◌-◌, ◌+◌, ◌==◌}
use databend_meta.Common.Int.{
  ℤ, pos, negsuc, u64_mod, u64_max, saturating_add_signed, saturating_add_signed-lt,
}
use databend_meta.Types.Time.{millis}
use databend_meta.Types.SeqV.{SeqV, seq_of}
use databend_meta.Types.Upsert.{update_kv}
use databend_meta.KvTransaction.Operation.{FetchIncreaseU64}
use databend_meta.StateMachine.Api.{StateMachineApi}
use databend_meta.StateMachine.Laws.{ValueLaws, MapLaws}
use databend_meta.StateMachine.Ext.{get_maybe_expired_kv}
use databend_meta.Applier.Response.{FetchIncreaseU64Response, new_unchanged, new_fetch_response}
use databend_meta.Applier.Defs.{Applier, upsert_kv}
use databend_meta.Applier.Execute.{
  stored_u64, counter_of, guard_fails, increased, increased_reply, store_increased,
  fetch_increase_found, execute_fetch_increase_u64,
}
use databend_meta.Applier.Updates.{update_kv-written}

module _ (api : StateMachineApi) (values : ValueLaws api) (laws : MapLaws api) where
  open api use {State, write_u64, read_u64}

  stored_u64-lt : (found : Option (SeqV Bytes)) → stored_u64 api found < u64_mod
  stored_u64-lt none = omega arith
  stored_u64-lt (some v) = elim (Option-cases (read_u64 v.value)) [
    | inl e ↦ rw e (omega arith)
    | inr (n, e) ↦ rw e (values.read_u64_lt v.value n e)
  ]

  -- A number plus a signed one, kept between 0 and `u64::MAX`.
  abbrev pub shifted : ℕ → ℤ → ℕ
  shifted n (pos d) = min (n + d) u64_max
  shifted n (negsuc d) = n - suc d

  abbrev pub allowed : Option ℕ → ℕ → Bool
  allowed none q = true
  allowed (some n) q = n == q

  -- What the operation leaves of the counter.
  abbrev pub next_value : FetchIncreaseU64 → Option (SeqV Bytes) → ℕ
  next_value op found =
      let before = stored_u64 api found in
      if allowed op.target.match_seq (seq_of found)
      then shifted (max before op.floor) op.delta
      else before

  increased-shifted :
      (op : FetchIncreaseU64) (before : ℕ)
      → increased api op before ≡ shifted (max before op.floor) op.delta
  unfolding increased saturating_add_signed
  increased-shifted op before = go op.delta
    where
      go : (d : ℤ) → saturating_add_signed (max before op.floor) d ≡ shifted (max before op.floor) d
      go (pos d) = refl
      go (negsuc d) = refl

  allowed-guard_fails : (guard : Option ℕ) (q : ℕ) → allowed guard q ≡ not (guard_fails api guard q)
  allowed-guard_fails none q = refl
  allowed-guard_fails (some n) q = ground arith

  increased-lt :
      (op : FetchIncreaseU64) (before : ℕ)
      → op.floor < u64_mod
      → before < u64_mod
      → increased api op before < u64_mod
  unfolding increased
  increased-lt op before h b = saturating_add_signed-lt (max before op.floor) op.delta (omega arith)

  store_increased-reads_back :
      (op : FetchIncreaseU64) (before_seq before : ℕ) (a a' : Applier api)
      (r : FetchIncreaseU64Response)
      → millis a.cmd_ctx.time < u64_mod
      → op.floor < u64_mod
      → before < u64_mod
      → store_increased api op before_seq before a ≡ (ok r, a')
      → (found' : Option (SeqV Bytes)) × (get_maybe_expired_kv api op.target.key a'.sm ≡ ok found')
        × (r.before ≡ before)
        × (r.before_seq ≡ before_seq)
        × (r.after ≡ stored_u64 api found')
        × (r.after_seq ≡ seq_of found')
        × (stored_u64 api found' ≡ increased api op before)
  unfolding store_increased new_fetch_response
  store_increased-reads_back op before_seq before a a' r time floor b h =
      let value = write_u64 (increased api op before) in
      let ((prev, result), a1, write, reply) =
        and_then-ok (upsert_kv api (update_kv op.target.key value) a)
          (λ changed s. (ok (increased_reply api op before_seq before changed), s)) h in
      let (meta, result_is, read) =
        update_kv-written api values laws op.target.key value a a1 prev result time write in
      let next = increased_reply api op before_seq before (prev, result) in
      let answers : ◌≡◌ {A = Result FetchIncreaseU64Response} (ok next) (ok r) =
        ap (λ (p : Result FetchIncreaseU64Response × Applier api). p.0) reply in
      let answer : next ≡ r = cc in
      let ends : ◌≡◌ {A = Applier api} a1 a' =
        ap (λ (p : Result FetchIncreaseU64Response × Applier api). p.1) reply in
      let stored : stored_u64 api result ≡ increased api op before =
        ap (stored_u64 api) result_is
        ∙ ap (λ o. unwrap_or o 0)
            (values.read-write_u64 (increased api op before) (increased-lt op before floor b)) in
      (
        result,
        subst (λ (s : Applier api). get_maybe_expired_kv api op.target.key s.sm ≡ ok result) ends
            read,
        ap (λ r. r.before) (sym answer),
        ap (λ r. r.before_seq) (sym answer),
        ap (λ r. r.after) (sym answer) ∙ sym stored,
        ap (λ r. r.after_seq) (sym answer),
        stored,
      )

  unchanged-reads_back :
      (op : FetchIncreaseU64) (found : Option (SeqV Bytes)) (a a' : Applier api)
      (r : FetchIncreaseU64Response)
      → get_maybe_expired_kv api op.target.key a.sm ≡ ok found
      → ◌≡◌ {A = Result FetchIncreaseU64Response × Applier api}
          (
            ok (new_unchanged op.target.key (counter_of api (seq_of found) (stored_u64 api found))),
            a,
          )
          (ok r, a')
      → (found' : Option (SeqV Bytes)) × (get_maybe_expired_kv api op.target.key a'.sm ≡ ok found')
        × (r.before ≡ stored_u64 api found)
        × (r.before_seq ≡ seq_of found)
        × (r.after ≡ stored_u64 api found')
        × (r.after_seq ≡ seq_of found')
        × (stored_u64 api found' ≡ stored_u64 api found)
  unfolding new_unchanged
  unchanged-reads_back op found a a' r read h =
      let same =
        new_unchanged op.target.key (counter_of api (seq_of found) (stored_u64 api found)) in
      let answers : ◌≡◌ {A = Result FetchIncreaseU64Response} (ok same) (ok r) =
        ap (λ (p : Result FetchIncreaseU64Response × Applier api). p.0) h in
      let answer : same ≡ r = cc in
      let ends : ◌≡◌ {A = Applier api} a a' =
        ap (λ (p : Result FetchIncreaseU64Response × Applier api). p.1) h in
      (
        found,
        subst (λ (s : Applier api). get_maybe_expired_kv api op.target.key s.sm ≡ ok found) ends
            read,
        ap (λ r. r.before) (sym answer),
        ap (λ r. r.before_seq) (sym answer),
        ap (λ r. r.after) (sym answer),
        ap (λ r. r.after_seq) (sym answer),
        refl,
      )

  found-reads_back :
      (op : FetchIncreaseU64) (found : Option (SeqV Bytes)) (a a' : Applier api)
      (r : FetchIncreaseU64Response)
      → millis a.cmd_ctx.time < u64_mod
      → op.floor < u64_mod
      → get_maybe_expired_kv api op.target.key a.sm ≡ ok found
      → fetch_increase_found api op (seq_of found) (stored_u64 api found) a ≡ (ok r, a')
      → (found' : Option (SeqV Bytes)) × (get_maybe_expired_kv api op.target.key a'.sm ≡ ok found')
        × (r.before ≡ stored_u64 api found)
        × (r.before_seq ≡ seq_of found)
        × (r.after ≡ stored_u64 api found')
        × (r.after_seq ≡ seq_of found')
        × (stored_u64 api found' ≡ next_value op found)
  found-reads_back op found a a' r time floor read h =
      elim (Bool-cases (guard_fails api op.target.match_seq (seq_of found))) [
        | inl fails ↦
            rw (allowed-guard_fails op.target.match_seq (seq_of found), fails)
              (unchanged-reads_back op found a a' r read (rw fails at h))
        | inr passes ↦
            rw
              (
                allowed-guard_fails op.target.match_seq (seq_of found),
                passes,
                ← increased-shifted op (stored_u64 api found),
              )
              (store_increased-reads_back op (seq_of found) (stored_u64 api found) a a' r time floor
                (stored_u64-lt found) (rw passes at h))
      ]

  -- Where a fetch-and-increase succeeds, and the time of the log and the floor are `u64` values: the answer's
  -- `before` is the counter before (0 where it is absent or no number) and its `after` the counter that is read
  -- afterwards, each with its sequence number; the counter afterwards is the one before where the guard on the
  -- sequence number fails, else the greater of it and the floor, plus the delta, kept between 0 and 2^64 - 1.
  pub execute_fetch_increase_u64_reads_back :
      (op : FetchIncreaseU64) (a a' : Applier api) (r : FetchIncreaseU64Response)
      → millis a.cmd_ctx.time < u64_mod
      → op.floor < u64_mod
      → execute_fetch_increase_u64 api op a ≡ (ok r, a')
      → (found : Option (SeqV Bytes)) × (found' : Option (SeqV Bytes)) × (get_maybe_expired_kv api
            op.target.key a.sm
          ≡ ok found)
        × (get_maybe_expired_kv api op.target.key a'.sm ≡ ok found')
        × (r.before ≡ stored_u64 api found)
        × (r.before_seq ≡ seq_of found)
        × (r.after ≡ stored_u64 api found')
        × (r.after_seq ≡ seq_of found')
        × (stored_u64 api found' ≡ next_value op found)
  unfolding execute_fetch_increase_u64
  execute_fetch_increase_u64_reads_back op a a' r time floor h =
      let (found, s1, reads', rest) =
        and_then-ok (get_maybe_expired_kv api op.target.key a.sm, a)
          (λ found. fetch_increase_found api op (seq_of found) (stored_u64 api found)) h in
      let read : get_maybe_expired_kv api op.target.key a.sm ≡ ok found =
        ap (λ (p : Result (Option (SeqV Bytes)) × Applier api). p.0) reads' in
      let starts : ◌≡◌ {A = Applier api} s1 a =
        ap (λ (p : Result (Option (SeqV Bytes)) × Applier api). p.1) (sym reads') in
      let rest' =
        subst
          (λ (s : Applier api).
            fetch_increase_found api op (seq_of found) (stored_u64 api found) s ≡ (ok r, a'))
          starts rest in
      let (found', after, b, bs, c, cs, n) =
        found-reads_back op found a a' r time floor read rest' in
      (found, found', read, after, b, bs, c, cs, n)
