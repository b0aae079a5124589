-- ===== src/StateMachine/Ext/Upsert.antt =====
-- What `upsert_kv_primary_index` does to the key that it is given.
use databend_meta.Common.{
  ℕ, ◌+◌, ◌≡◌, ◌∙◌, ap, sym, refl, Bool, true, false, Option, none, some, Text, Bytes, Result, ok,
  err, arith, and_then, with_read-ok, unwrap_or, ltb, is_none, Bool-cases, Option-cases, inl, inr,
  if◌then◌else◌, option_map,
}
use databend_meta.Types.Time.{millis}
use databend_meta.Types.MetaSpec
use databend_meta.Types.SeqV.{KvMeta, SeqV}
use databend_meta.Types.Upsert.{UpsertKv, Operation, update, delete, as_is}
use databend_meta.Types.CmdContext.{CmdContext, resolve_meta_spec}
use databend_meta.StateMachine.Api.{StateMachineApi}
use databend_meta.StateMachine.Laws.{ValueLaws, MapLaws}
use databend_meta.StateMachine.Ext.{
  upsert_found, update_found, write_operation, delete_if_expired, upsert_kv_primary_index,
}

-- The entry and the last sequence number after a write, from those before it.
abbrev pub numbered : ℕ → KvMeta → Bytes → Option (SeqV Bytes)
numbered n meta v = some (record { seq = n + 1; meta = some meta; value = v })

unfoldable pub written :
    Operation Bytes → KvMeta → Option (SeqV Bytes) → ℕ → Option (SeqV Bytes) × ℕ
written (update v) meta old n = (numbered n meta v, n + 1)
written delete meta old n = (none, n)
written as_is meta none n = (none, n)
written as_is meta (some o) n = (numbered n meta o.value, n + 1)

-- The promise of `upsert_kv_primary_index`: nothing where the sequence number does not match, else
-- the write, and then the deletion of what has expired.
unfoldable pub upserted :
    Bool → Bool → Operation Bytes → KvMeta → Option (SeqV Bytes) → ℕ → Option (SeqV Bytes) × ℕ
unfolding written
upserted false expired op meta old n = (old, n)
upserted true false op meta old n = written op meta old n
upserted true true op meta old n = (none, (written op meta old n).1)

abbrev pub meta_of : UpsertKv → CmdContext → KvMeta
meta_of u ctx = resolve_meta_spec ctx (unwrap_or u.value_meta MetaSpec.default)

module _ (api : StateMachineApi) where
  abbrev pub matches : UpsertKv → api.Marked → Bool
  matches u prev = api.match_seq u.seq (api.seq prev)

  abbrev pub has_expired : UpsertKv → CmdContext → Bool
  has_expired u ctx = ltb (api.expires_at_ms (meta_of u ctx)) (millis ctx.time)

module _ (api : StateMachineApi) (values : ValueLaws api) (laws : MapLaws api) where
  open api use {
    State, Marked, to_seqv, seq, is_tombstone, into_data, expires_at_ms, match_seq, get,
    fetch_and_set,
  }

  -- What a step returns for its key and leaves behind.
  record Wrote (key : Text) (s s' : State) (prev res : Marked) (expected : Option (SeqV Bytes) × ℕ)
      : Type 0 where
    before : get key s ≡ ok prev
    after : get key s' ≡ ok res
    entry : to_seqv res ≡ expected.0
    last_seq : laws.last_seq s' ≡ expected.1

  -- What the cases of an update of the meta come to.
  update_found_absent :
      (key : Text) (meta : KvMeta) (got : Marked) (s : State)
      → to_seqv got ≡ none
      → update_found api key meta got s ≡ (ok (got, got), s)
  update_found_absent key meta got s absent = rw (values.is_tombstone_lem got ∙ ap is_none absent)

  update_found_present :
      (key : Text) (meta : KvMeta) (got : Marked) (s : State) (o : SeqV Bytes)
      → to_seqv got ≡ some o
      → update_found api key meta got s ≡ fetch_and_set key (some (some meta, o.value)) s
  update_found_present key meta got s o present = rw (
    values.is_tombstone_lem got ∙ ap is_none present,
    values.into_data_lem got ∙ ap (option_map (λ v. (v.meta, v.value))) present,
  )

  update_found-Wrote :
      (key : Text) (meta : KvMeta) (got : Marked) (s s' : State) (prev res : Marked)
      → get key s ≡ ok got
      → update_found api key meta got s ≡ (ok (prev, res), s')
      → Wrote key s s' prev res (written as_is meta (to_seqv prev) (laws.last_seq s))
  unfolding written
  update_found-Wrote key meta got s s' prev res eg h = elim (Option-cases (to_seqv got)) [
    | inl absent ↦
        let e : (ok (got, got), s) ≡ (ok (prev, res), s') =
          sym (update_found_absent key meta got s absent) ∙ h in
        ground (arith, e, absent, eg)
    | inr (o, present) ↦
        let e : fetch_and_set key (some (some meta, o.value)) s ≡ (ok (prev, res), s') =
          sym (update_found_present key meta got s o present) ∙ h in
        let prev_eq : ok got ≡ ok prev =
          sym eg ∙ laws.get_prev key (some (some meta, o.value)) s s' prev res e in
        ground (
          arith,
          present,
          prev_eq,
          laws.get_prev key (some (some meta, o.value)) s s' prev res e,
          laws.get_self key (some (some meta, o.value)) s s' prev res e,
          laws.value_set key (some meta, o.value) s s' prev res e,
          laws.last_seq_set key (some meta, o.value) s s' prev res e,
        )
  ]

  write_operation-Wrote :
      (key : Text) (meta : KvMeta) (op : Operation Bytes) (s s' : State) (prev res : Marked)
      → write_operation api key meta op s ≡ (ok (prev, res), s')
      → Wrote key s s' prev res (written op meta (to_seqv prev) (laws.last_seq s))
  unfolding write_operation written
  write_operation-Wrote key meta (update v) s s' prev res h = record {
    before = laws.get_prev key (some (some meta, v)) s s' prev res h;
    after = laws.get_self key (some (some meta, v)) s s' prev res h;
    entry = laws.value_set key (some meta, v) s s' prev res h;
    last_seq = laws.last_seq_set key (some meta, v) s s' prev res h;
  }
  write_operation-Wrote key meta delete s s' prev res h = record {
    before = laws.get_prev key none s s' prev res h;
    after = laws.get_self key none s s' prev res h;
    entry = laws.value_deleted key s s' prev res h;
    last_seq = laws.last_seq_deleted key s s' prev res h;
  }
  write_operation-Wrote key meta as_is s s' prev res h =
      let (got, eg, found) = with_read-ok (get key s) (update_found api key meta) s h in
      update_found-Wrote key meta got s s' prev res eg found

  deletion-Wrote :
      (key : Text) (s s1 s' : State) (p r prev res : Marked) (expected : Option (SeqV Bytes) × ℕ)
      (m : Result (Marked × Marked) × State)
      → Wrote key s s1 p r expected
      → fetch_and_set key none s1 ≡ m
      → and_then {B = Marked × Marked} m (λ (q, r') t. (ok (p, r'), t)) ≡ (ok (prev, res), s')
      → Wrote key s s' prev res (none, expected.1)
  deletion-Wrote key s s1 s' p r prev res expected (ok (q, r'), t) w deleted h = ground (
    arith,
    laws.get_self key none s1 t q r' deleted,
    laws.value_deleted key s1 t q r' deleted,
    laws.last_seq_deleted key s1 t q r' deleted,
  )
  deletion-Wrote key s s1 s' p r prev res expected (err x, t) w deleted h = cc

  delete_if_expired-Wrote :
      (key : Text) (meta : KvMeta) (now : ℕ) (s s1 s' : State) (p r prev res : Marked)
      (expected : Option (SeqV Bytes) × ℕ)
      → Wrote key s s1 p r expected
      → delete_if_expired api key meta now (p, r) s1 ≡ (ok (prev, res), s')
      → Wrote key s s' prev res
          (if ltb (expires_at_ms meta) now then (none, expected.1) else expected)
  unfolding delete_if_expired
  delete_if_expired-Wrote key meta now s s1 s' p r prev res expected w h =
      elim (Bool-cases (ltb (expires_at_ms meta) now)) [
        | inl expired ↦ rw expired (
            deletion-Wrote key s s1 s' p r prev res expected (fetch_and_set key none s1) w refl
              (rw expired at h))
        | inr live ↦ ground (arith, live)
      ]

  upserted_matched :
      (expired : Bool) (op : Operation Bytes) (meta : KvMeta) (old : Option (SeqV Bytes)) (n : ℕ)
      → (if expired then (none, (written op meta old n).1) else written op meta old n)
        ≡ upserted true expired op meta old n
  unfolding upserted
  upserted_matched true op meta old n = refl
  upserted_matched false op meta old n = refl

  matched-Wrote :
      (u : UpsertKv) (ctx : CmdContext) (s s' : State) (prev res : Marked)
      (m : Result (Marked × Marked) × State)
      → write_operation api u.key (meta_of u ctx) u.value s ≡ m
      → and_then m (delete_if_expired api u.key (meta_of u ctx) (millis ctx.time))
        ≡ (ok (prev, res), s')
      → Wrote u.key s s' prev res (
          upserted true
            (has_expired api u ctx)
            u.value
            (meta_of u ctx)
            (to_seqv prev)
            (laws.last_seq s))
  matched-Wrote u ctx s s' prev res (ok (p, r), s1) e h =
      let w = write_operation-Wrote u.key (meta_of u ctx) u.value s s1 p r e in
      let d =
        delete_if_expired-Wrote u.key (meta_of u ctx) (millis ctx.time) s s1 s' p r prev res
          (written u.value (meta_of u ctx) (to_seqv p) (laws.last_seq s)) w h in
      let same : prev ≡ p = cc (w.before, d.before) in
      rw (← upserted_matched (has_expired api u ctx) u.value (meta_of u ctx), same) (rw same at d)
  matched-Wrote u ctx s s' prev res (err x, s1) e h = cc

  upsert_found-Wrote :
      (u : UpsertKv) (ctx : CmdContext) (got : Marked) (s s' : State) (prev res : Marked)
      → get u.key s ≡ ok got
      → upsert_found api u ctx (meta_of u ctx) got s ≡ (ok (prev, res), s')
      → Wrote u.key s s' prev res (
          upserted
            (matches api u prev)
            (has_expired api u ctx)
            u.value
            (meta_of u ctx)
            (to_seqv prev)
            (laws.last_seq s))
  upsert_found-Wrote u ctx got s s' prev res eg h = elim (Bool-cases (matches api u got)) [
    | inl yes' ↦
        let w =
          matched-Wrote u ctx s s' prev res (write_operation api u.key (meta_of u ctx) u.value s)
            refl (rw yes' at h) in
        let same : got ≡ prev = cc (w.before, eg) in rw (← same, yes') (rw (← same) at w)
    | inr no' ↦
        let e : ◌≡◌ {A = Result (Marked × Marked) × State} (ok (got, got), s) (ok (prev, res), s') =
          rw no' at h in
        unfold upserted in ground (arith, e, eg, no')
  ]

  -- Where an upsert succeeds: it returns the entry of its key before and the one after it; the one
  -- after it, and the last sequence number, are those of `upserted`: unchanged where the sequence
  -- number does not match, else written with the next number, deleted, or given the new meta, and
  -- absent where the resolved expiration lies before the time of the log (the number stays taken).
  pub upsert_kv_primary_index_refines :
      (u : UpsertKv) (ctx : CmdContext) (s s' : State) (prev res : Marked)
      → upsert_kv_primary_index api u ctx s ≡ (ok (prev, res), s')
      → let expected =
          upserted
            (match_seq u.seq (seq prev))
            (has_expired api u ctx)
            u.value
            (meta_of u ctx)
            (to_seqv prev)
            (laws.last_seq s) in
        (get u.key s ≡ ok prev)
        × (get u.key s' ≡ ok res)
        × (to_seqv res ≡ expected.0)
        × (laws.last_seq s' ≡ expected.1)
  unfolding upsert_kv_primary_index
  upsert_kv_primary_index_refines u ctx s s' prev res h =
      let (got, eg, found) =
        with_read-ok (get u.key s) (upsert_found api u ctx (meta_of u ctx)) s h in
      let w = upsert_found-Wrote u ctx got s s' prev res eg found in
      (w.before, w.after, w.entry, w.last_seq)
