-- ===== src/Applier/Cleaned.antt =====
-- What the cleaning of expired keys leaves.
use databend_meta.Common.{
  ℕ, ◌≡◌, ◌≢◌, ◌∙◌, subst, sym, ap, arith, true, false, Option, none, some, List, [], ◌∷◌, Text,
  Bytes, Result, ok, and_then-ok, IoStream, no_error, All, if◌then◌else◌, leb, ◌==◌, text_eq,
  text_eq_iff, text_eq_sound, Bool-cases, inl, inr,
}
use databend_meta.Types.SeqV.{SeqV, seq_of}
use databend_meta.Types.Upsert.{delete_kv}
use databend_meta.StateMachine.Api.{StateMachineApi, ExpireKey}
use databend_meta.StateMachine.Laws.{ValueLaws, MapLaws}
use databend_meta.StateMachine.Ext.{get_maybe_expired_kv, list_expire_index}
use databend_meta.StateMachine.Ext.Upsert.{has_expired, meta_of}
use databend_meta.Applier.Defs.{Applier, upsert_kv}
use databend_meta.Applier.Clean.{
  delete_expired, save_cleanup_start, clean_listed, clean_expired_kvs,
}
use databend_meta.Applier.Refine.{upsert_kv_refines, upsert_kv_other}
use databend_meta.Applier.Deletions.{deleted_lem}
use databend_meta.Applier.Expired.{Ascending, expired_before, collect_expired-expired_before}

not_same : (j k : Text) → text_eq j k ≡ false → j ≢ k
not_same j k h e = let same : text_eq j k ≡ true = (text_eq_iff j k).1 e in cc

module _ (api : StateMachineApi) (values : ValueLaws api) (laws : MapLaws api) where
  -- No value with a sequence number is read at the key (no value is stored with the number 0).
  abbrev pub Absent : Applier api → Text → Type 0
  Absent a k =
      (found : Option (SeqV Bytes)) × (get_maybe_expired_kv api k a.sm ≡ ok found)
      × (seq_of found ≡ 0)

  zero_left : (prev : Option (SeqV Bytes)) → seq_of (if leb 1 (seq_of prev) then none else prev) ≡ 0
  zero_left none = ground arith
  zero_left (some v) = ground arith

  delete_kv-Absent :
      (key : Text) (a a' : Applier api) (y : Option (SeqV Bytes) × Option (SeqV Bytes))
      → upsert_kv api (delete_kv key) a ≡ (ok y, a')
      → Absent a' key
  unfolding delete_kv
  delete_kv-Absent key a a' (prev, result) h =
      let u = delete_kv key in
      let (before, after, entry, last) = upsert_kv_refines api values laws u a a' prev result h in
      let result_is : result ≡ (if leb 1 (seq_of prev) then none else prev) =
        entry
        ∙ deleted_lem (api.match_seq u.seq (seq_of prev)) (has_expired api u a.cmd_ctx)
            (meta_of u a.cmd_ctx) prev (laws.last_seq a.sm)
        ∙ ap (λ m. if m then none else prev) (values.match_ge 1 (seq_of prev)) in
      (result, after, ap (λ x. seq_of x) result_is ∙ zero_left prev)

  delete_kv-keeps_Absent :
      (key j : Text) (a a' : Applier api) (y : Option (SeqV Bytes) × Option (SeqV Bytes))
      → upsert_kv api (delete_kv key) a ≡ (ok y, a')
      → Absent a j
      → Absent a' j
  unfolding delete_kv
  delete_kv-keeps_Absent key j a a' y h (found, read, zero) = elim (Bool-cases (text_eq j key)) [
    | inl same ↦ subst (Absent a') (sym (text_eq_sound j key same)) (delete_kv-Absent key a a' y h)
    | inr differs ↦ (
      found,
      upsert_kv_other api values laws (delete_kv key) a a' y j h (not_same j key differs) ∙ read,
      zero,
    )
  ]

  delete_expired-keeps_Absent :
      (ks : List (ExpireKey × Text)) (j : Text) (a a' : Applier api)
      → delete_expired api ks a ≡ (ok tt, a')
      → Absent a j
      → Absent a' j
  unfolding delete_expired
  delete_expired-keeps_Absent [] j a a' h absent =
      let ends : ◌≡◌ {A = Applier api} a a' = ap (λ (p : Result {0} Unit × Applier api). p.1) h in
      subst (λ (s : Applier api). Absent s j) ends absent
  delete_expired-keeps_Absent ((e, key) ∷ ks) j a a' h absent =
      let (y, a1, first, rest) =
        and_then-ok (upsert_kv api (delete_kv key) a) (λ _. delete_expired api ks) h in
      delete_expired-keeps_Absent ks j a1 a' rest (delete_kv-keeps_Absent key j a a1 y first absent)

  delete_expired-Absent :
      (ks : List (ExpireKey × Text)) (a a' : Applier api)
      → delete_expired api ks a ≡ (ok tt, a')
      → All (λ (e, key). Absent a' key) ks
  unfolding delete_expired
  delete_expired-Absent [] a a' h = tt
  delete_expired-Absent ((e, key) ∷ ks) a a' h =
      let (y, a1, first, rest) =
        and_then-ok (upsert_kv api (delete_kv key) a) (λ _. delete_expired api ks) h in
      (
        delete_expired-keeps_Absent ks key a1 a' rest (delete_kv-Absent key a a1 y first),
        delete_expired-Absent ks a1 a' rest,
      )

  -- Where an index of expirations is listed in ascending order and without an error, and the cleaning at a time other than 0
  -- succeeds: no value is left at any key that the list has as expired before that time.
  pub clean_expired_kvs-Absent :
      (now : ℕ) (a a' : Applier api) (strm : IoStream (ExpireKey × Text))
      → (now == 0) ≡ false
      → list_expire_index api now a.sm ≡ ok strm
      → Ascending strm
      → no_error strm ≡ true
      → clean_expired_kvs api now a ≡ (ok tt, a')
      → All (λ (e, key). Absent a' key) (expired_before now strm)
  unfolding clean_expired_kvs
  clean_expired_kvs-Absent now a a' strm timed listed order clean h =
      let whole : ◌≡◌ {A = Result {0} Unit × Applier api} (clean_listed api now strm a)
          (ok tt, a') =
        rw (timed, listed) at h in
      let collected = collect_expired-expired_before api values now strm order clean in
      let deleted : ◌≡◌ {A = Result {0} Unit × Applier api}
          (delete_expired api (expired_before now strm) (save_cleanup_start api now a))
          (ok tt, a') =
        rw collected at whole in
      delete_expired-Absent (expired_before now strm) (save_cleanup_start api now a) a' deleted
