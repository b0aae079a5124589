-- ===== src/Applier/Refine.antt =====
-- What `upsert_kv` of the applier does, as its callers see it.
use databend_meta.Common.{
  ℕ, ◌≡◌, ◌≢◌, ◌∙◌, refl, sym, ap, Option, none, some, Text, Bytes, ok, Bool-cases, inl, inr,
}
use databend_meta.Common.{◌>>=◌}
use databend_meta.Types.SeqV.{SeqV, seq_of}
use databend_meta.Types.Upsert.{UpsertKv}
use databend_meta.StateMachine.Api.{StateMachineApi}
use databend_meta.StateMachine.Laws.{ValueLaws, MapLaws}
use databend_meta.StateMachine.Ext.{
  update_expire_index, add_index, remove_index, get_maybe_expired_kv,
}
use databend_meta.StateMachine.Ext.Frame.{get-upsert_kv_primary_index_ne}
use databend_meta.StateMachine.Ext.Upsert.{
  upserted, has_expired, meta_of, upsert_kv_primary_index_refines,
}
use databend_meta.Applier.Defs.{Applier, upsert_kv}
use databend_meta.Applier.Upsert.{sm-push_change, upsert_kv-Steps}

module _ (api : StateMachineApi) (values : ValueLaws api) (laws : MapLaws api) where
  open api use {State, Marked, to_seqv, marked_eq, expires_at_ms_opt, get}

  get-remove_index :
      (o : Option ℕ) (m : Marked) (s : State) (k : Text) → get k (remove_index api o m s) ≡ get k s
  get-remove_index none m s k = refl
  get-remove_index (some t) m s k = laws.get-expire_set _ none s k

  get-add_index :
      (key : Text) (o : Option ℕ) (m : Marked) (s : State) (k : Text)
      → get k (add_index api key o m s) ≡ get k s
  get-add_index key none m s k = refl
  get-add_index key (some t) m s k = laws.get-expire_set _ (some key) s k

  last_seq-remove_index :
      (o : Option ℕ) (m : Marked) (s : State)
      → laws.last_seq (remove_index api o m s) ≡ laws.last_seq s
  last_seq-remove_index none m s = refl
  last_seq-remove_index (some t) m s = laws.last_seq-expire_set _ none s

  last_seq-add_index :
      (key : Text) (o : Option ℕ) (m : Marked) (s : State)
      → laws.last_seq (add_index api key o m s) ≡ laws.last_seq s
  last_seq-add_index key none m s = refl
  last_seq-add_index key (some t) m s = laws.last_seq-expire_set _ (some key) s

  get-update_expire_index :
      (key : Text) (p r : Marked) (s : State) (k : Text)
      → get k (update_expire_index api key p r s) ≡ get k s
  unfolding update_expire_index
  get-update_expire_index key p r s k = elim (Bool-cases (marked_eq p r)) [
    | inl e ↦ rw e
    | inr e ↦ rw e (
        get-add_index key (expires_at_ms_opt r) r _ k
        ∙ get-remove_index (expires_at_ms_opt p) p s k)
  ]

  last_seq-update_expire_index :
      (key : Text) (p r : Marked) (s : State)
      → laws.last_seq (update_expire_index api key p r s) ≡ laws.last_seq s
  unfolding update_expire_index
  last_seq-update_expire_index key p r s = elim (Bool-cases (marked_eq p r)) [
    | inl e ↦ rw e
    | inr e ↦ rw e (
        last_seq-add_index key (expires_at_ms_opt r) r _
        ∙ last_seq-remove_index (expires_at_ms_opt p) p s)
  ]

  read_marked :
      (k : Text) (s : State) (m : Marked)
      → get k s ≡ ok m
      → get_maybe_expired_kv api k s ≡ ok (to_seqv m)
  unfolding get_maybe_expired_kv
  read_marked k s m h = rw h

  -- An upsert that succeeds returns what is read at its key before and what is read there
  -- afterwards. The latter, and the last sequence number, are those of `upserted`: unchanged where the
  -- sequence number does not match, else written with the next number, deleted, or given the new meta, and absent
  -- where the resolved expiration lies before the time of the log (the number stays taken).
  pub upsert_kv_refines :
      (u : UpsertKv) (a a' : Applier api) (prev result : Option (SeqV Bytes))
      → upsert_kv api u a ≡ (ok (prev, result), a')
      → let expected =
          upserted
            (api.match_seq u.seq (seq_of prev))
            (has_expired api u a.cmd_ctx)
            u.value
            (meta_of u a.cmd_ctx)
            prev
            (laws.last_seq a.sm) in
        (get_maybe_expired_kv api u.key a.sm ≡ ok prev)
        × (get_maybe_expired_kv api u.key a'.sm ≡ ok result)
        × (result ≡ expected.0)
        × (laws.last_seq a'.sm ≡ expected.1)
  upsert_kv_refines u a a' prev result h =
      let (p, r, s, write, value, same) = upsert_kv-Steps api u a a' (prev, result) h in
      let (before, after, entry, last) =
        upsert_kv_primary_index_refines api values laws u a.cmd_ctx a.sm s p r write in
      let prev_is : to_seqv p ≡ prev =
        ap (λ (y : Option (SeqV Bytes) × Option (SeqV Bytes)). y.0) value in
      let result_is : to_seqv r ≡ result =
        ap (λ (y : Option (SeqV Bytes) × Option (SeqV Bytes)). y.1) value in
      let sm_is : ◌≡◌ {A = State} a'.sm (update_expire_index api u.key p r s) =
        ap (λ (b : Applier api). b.sm) (sym same)
        ∙ sm-push_change api u.key _ _ (record a { sm = update_expire_index api u.key p r s }) in
      let seq_is : api.seq p ≡ seq_of prev = values.seq_lem p ∙ ap seq_of prev_is in
      let expired = has_expired api u a.cmd_ctx in
      let meta = meta_of u a.cmd_ctx in
      let n = laws.last_seq a.sm in
      let expected_is : upserted (api.match_seq u.seq (api.seq p)) expired u.value meta (to_seqv p)
            n
          ≡ upserted (api.match_seq u.seq (seq_of prev)) expired u.value meta prev n =
        ap (λ q. upserted (api.match_seq u.seq q) expired u.value meta (to_seqv p) n) seq_is
        ∙ ap (λ v. upserted (api.match_seq u.seq (seq_of prev)) expired u.value meta v n) prev_is in
      (
        read_marked u.key a.sm p before ∙ ap (λ x. ok x) prev_is,
        read_marked u.key a'.sm r
              (ap (get u.key) sm_is ∙ get-update_expire_index u.key p r s u.key ∙ after)
            ∙ ap (λ x. ok x) result_is,
        sym result_is ∙ entry ∙ ap (λ e. e.0) expected_is,
        ap laws.last_seq sm_is
            ∙ last_seq-update_expire_index u.key p r s
            ∙ last
            ∙ ap (λ e. e.1) expected_is,
      )

  -- An upsert that succeeds leaves what is read at every other key as it was.
  pub upsert_kv_other :
      (u : UpsertKv) (a a' : Applier api) (y : Option (SeqV Bytes) × Option (SeqV Bytes)) (j : Text)
      → upsert_kv api u a ≡ (ok y, a')
      → j ≢ u.key
      → get_maybe_expired_kv api j a'.sm ≡ get_maybe_expired_kv api j a.sm
  unfolding get_maybe_expired_kv
  upsert_kv_other u a a' y j h n =
      let (p, r, s, write, value, same) = upsert_kv-Steps api u a a' y h in
      let sm_is : ◌≡◌ {A = State} a'.sm (update_expire_index api u.key p r s) =
        ap (λ (b : Applier api). b.sm) (sym same)
        ∙ sm-push_change api u.key _ _ (record a { sm = update_expire_index api u.key p r s }) in
      ap (λ g. g >>= λ got. ok (to_seqv got))
        (ap (get j) sm_is
          ∙ get-update_expire_index u.key p r s j
          ∙ get-upsert_kv_primary_index_ne api laws j u a.cmd_ctx a.sm s p r n write)
