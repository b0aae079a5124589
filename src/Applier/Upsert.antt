-- ===== src/Applier/Upsert.antt =====
-- The steps of `upsert_kv` of the applier, and what of the state machine every upsert keeps.
use databend_meta.Common.{
  ℕ, ◌≡◌, refl, subst, sym, ap, Option, none, some, Text, Bytes, Result, ok, err, and_then,
  option_eq, Bool-cases, inl, inr,
}
use databend_meta.Types.SeqV.{SeqV, seqv_eq}
use databend_meta.Types.Upsert.{UpsertKv}
use databend_meta.StateMachine.Api.{StateMachineApi, MetaValue, ExpireKey}
use databend_meta.StateMachine.Ext.{
  upsert_kv_primary_index, update_expire_index, add_index, remove_index,
}
use databend_meta.StateMachine.Ext.Steps.{WriteRelation, related-upsert_kv_primary_index}
use databend_meta.Applier.Defs.{Applier, index_and_push, upsert_kv, push_change}
use databend_meta.Applier.Keeps.{Keeps}

module _ (api : StateMachineApi) where
  open api use {State, Marked, to_seqv, marked_eq, expires_at_ms_opt}

  -- the applier after a primary write
  abbrev pub recorded : UpsertKv → Applier api → Marked → Marked → State → Applier api
  recorded u a prev res s =
      push_change api u.key (to_seqv prev) (to_seqv res)
        (record a { sm = update_expire_index api u.key prev res s })

  pub sm-push_change :
      (key : Text) (prev result : Option (SeqV Bytes)) (a : Applier api)
      → ◌≡◌ {A = State} (push_change api key prev result a).sm a.sm
  unfolding push_change
  sm-push_change key prev result a = elim (Bool-cases (option_eq seqv_eq prev result)) [
    | inl e ↦ rw e
    | inr e ↦ rw e
  ]

  abbrev Changed : Type 0
  Changed = Result (Option (SeqV Bytes) × Option (SeqV Bytes))

  abbrev Steps :
      UpsertKv
      → Applier api
      → Option (SeqV Bytes) × Option (SeqV Bytes)
      → Applier api
      → Result (Marked × Marked) × State
      → Type 0
  Steps u a y a' m =
      (prev : Marked) × (res : Marked) × (s : State) × (m ≡ (ok (prev, res), s))
      × ((to_seqv prev, to_seqv res) ≡ y)
      × (recorded u a prev res s ≡ a')

  Steps-of :
      (u : UpsertKv) (a a' : Applier api) (y : Option (SeqV Bytes) × Option (SeqV Bytes))
      (r : Result (Marked × Marked)) (s : State)
      → ◌≡◌ {A = Changed × Applier api}
          (and_then (r, record a { sm = s }) (index_and_push api u))
          (ok y, a')
      → Steps u a y a' (r, s)
  Steps-of u a a' y (ok (prev, res)) s h =
      let same : ◌≡◌ {A = Applier api} (recorded u a prev res s) a' =
        ap (λ (p : Changed × Applier api). p.1) h in
      let value : ◌≡◌ {A = Changed} (ok (to_seqv prev, to_seqv res)) (ok y) =
        ap (λ (p : Changed × Applier api). p.0) h in
      (prev, res, s, refl, cc, same)
  Steps-of u a a' y (err e) s h = cc

  -- An upsert that succeeds is the write of the key, then of its index, then of the change.
  pub upsert_kv-Steps :
      (u : UpsertKv) (a a' : Applier api) (y : Option (SeqV Bytes) × Option (SeqV Bytes))
      → upsert_kv api u a ≡ (ok y, a')
      → Steps u a y a' (upsert_kv_primary_index api u a.cmd_ctx a.sm)
  unfolding upsert_kv
  upsert_kv-Steps u a a' y h =
      let m = upsert_kv_primary_index api u a.cmd_ctx a.sm in Steps-of u a a' y m.0 m.1 h

-- A property of the state machine that every write of a key and of the expiration index keeps.
pub record StateInvariant (api : StateMachineApi) (Q : api.State → Type 0) : Type 0 where
  pub set :
      (k : Text) (v : Option MetaValue) (s s' : api.State) (p r : api.Marked)
      → api.fetch_and_set k v s ≡ (ok (p, r), s')
      → Q s
      → Q s'
  pub index : (e : ExpireKey) (v : Option Text) (s : api.State) → Q s → Q (api.expire_set e v s)

module _ {api : StateMachineApi} {Q : api.State → Type 0} (inv : StateInvariant api Q) where
  open api use {State, Marked, expires_at_ms_opt, marked_eq}

  invariant_kept : (key : Text) → WriteRelation api key
  invariant_kept key = record {
    R = λ s s'. Q s → Q s';
    refl' = λ s h. h;
    trans' = λ s t u st tu h. tu (st h);
    write = inv.set key;
  }

  remove_index-keeps : (o : Option ℕ) (m : Marked) (s : State) → Q s → Q (remove_index api o m s)
  remove_index-keeps none m s h = h
  remove_index-keeps (some t) m s h = inv.index _ none s h

  add_index-keeps :
      (k : Text) (o : Option ℕ) (m : Marked) (s : State) → Q s → Q (add_index api k o m s)
  add_index-keeps k none m s h = h
  add_index-keeps k (some t) m s h = inv.index _ (some k) s h

  update_expire_index-keeps :
      (k : Text) (p r : Marked) (s : State) → Q s → Q (update_expire_index api k p r s)
  unfolding update_expire_index
  update_expire_index-keeps k p r s h = elim (Bool-cases (marked_eq p r)) [
    | inl e ↦ rw e h
    | inr e ↦ rw e (
        add_index-keeps k (expires_at_ms_opt r) r _
          (remove_index-keeps (expires_at_ms_opt p) p s h))
  ]

  pub upsert_kv-Keeps : (u : UpsertKv) → Keeps api (λ a. Q a.sm) (upsert_kv api u)
  unfolding invariant_kept
  upsert_kv-Keeps u = record {
    at = λ a y a' h e.
        let (prev, res, s, write, value, same) = upsert_kv-Steps api u a a' y e in
        let kept : Q s =
          related-upsert_kv_primary_index api u (invariant_kept u.key) a.cmd_ctx a.sm s (prev, res)
            write h in
        let indexed : Q (update_expire_index api u.key prev res s) =
          update_expire_index-keeps u.key prev res s kept in
        subst (λ (b : Applier api). Q b.sm) same
          (subst Q
            (sym (
              sm-push_change api u.key _ _
                (record a { sm = update_expire_index api u.key prev res s })))
            indexed);
  }
