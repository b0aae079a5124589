-- ===== src/Applier/Published.antt =====
-- What subscribers are told of an applied entry.
use databend_meta.Common.{
  ◌≡◌, ◌∙◌, refl, subst, sym, ap, false, Option, List, [], ◌∷◌, ◌++◌, Text, Bytes, ok, option_eq,
  All, Bool-cases, inl, inr,
}
use databend_meta.Types.SeqV.{SeqV, seqv_eq}
use databend_meta.Types.Upsert.{UpsertKv}
use databend_meta.KvTransaction.Proto.{ProtoEnums}
use databend_meta.StateMachine.Api.{StateMachineApi, Event}
use databend_meta.StateMachine.Laws.{SystemLaws}
use databend_meta.StateMachine.Ext.{update_expire_index}
use databend_meta.Applier.Response.{AppliedState}
use databend_meta.Applier.Defs.{Applier, push_change, upsert_kv}
use databend_meta.Applier.Command.{
  Entry, get_log_time, apply, publish, update_sys_data, set_last_applied,
}
use databend_meta.Applier.Keeps.{Keeps}
use databend_meta.Applier.Upsert.{StateInvariant, upsert_kv-Keeps, sm-push_change, upsert_kv-Steps}
use databend_meta.Applier.KeepsCmd.{
  Keeps-clean_expired_kvs, Keeps-apply_payload, apply-steps, started,
}

-- The value before differs from the value after.
abbrev pub Differs : Event → Type 0
Differs e = option_eq seqv_eq e.prev e.result ≡ false

append_assoc : (xs ys zs : List Event) → (xs ++ ys) ++ zs ≡ xs ++ (ys ++ zs)
append_assoc [] ys zs = refl
append_assoc (x ∷ xs) ys zs = ap (λ l. x ∷ l) (append_assoc xs ys zs)

append_nil : (xs : List Event) → xs ++ [] ≡ xs
append_nil [] = refl
append_nil (x ∷ xs) = ap (λ l. x ∷ l) (append_nil xs)

All-append : (es : List Event) (e : Event) → All Differs es → Differs e → All Differs (es ++ e ∷ [])
All-append [] e h d = (d, tt)
All-append (x ∷ es) e (h, hs) d = (h, All-append es e hs d)

module _ (api : StateMachineApi) (enums : ProtoEnums) (laws : SystemLaws api) where
  PublishedIs : List Event → api.State → Type 0
  PublishedIs es s = laws.published s ≡ es

  Waiting : List Event → Applier api → Type 0
  Waiting es a = (laws.published a.sm ≡ es) × All Differs a.changes

  same_published :
      (es : List Event) (s s' : api.State)
      → laws.published s' ≡ laws.published s
      → PublishedIs es s
      → PublishedIs es s'
  unfolding PublishedIs
  same_published es s s' e h = e ∙ h

  PublishedIs-invariant : (es : List Event) → StateInvariant api (PublishedIs es)
  PublishedIs-invariant es = record {
    set = λ k v s s' p r e.
        same_published es s s'
          (ap (λ q. laws.published q.1) (sym e) ∙ laws.published-fetch_and_set k v s);
    index = λ e v s. same_published es s (api.expire_set e v s) (laws.published-expire_set e v s);
  }

  Differs-push_change :
      (key : Text) (prev result : Option (SeqV Bytes)) (a : Applier api)
      → All Differs a.changes
      → All Differs (push_change api key prev result a).changes
  unfolding push_change
  Differs-push_change key prev result a h = elim (Bool-cases (option_eq seqv_eq prev result)) [
    | inl e ↦ rw e h
    | inr e ↦ rw e (All-append a.changes (record { key = key; prev = prev; result = result }) h e)
  ]

  Waiting-push_change :
      (es : List Event) (key : Text) (prev result : Option (SeqV Bytes)) (a : Applier api)
      → Waiting es a
      → Waiting es (push_change api key prev result a)
  unfolding Waiting
  Waiting-push_change es key prev result a (h, d) = (
    ap laws.published (sm-push_change api key prev result a) ∙ h,
    Differs-push_change key prev result a d,
  )

  Waiting-upsert_kv : (es : List Event) (u : UpsertKv) → Keeps api (Waiting es) (upsert_kv api u)
  unfolding Waiting PublishedIs
  Waiting-upsert_kv es u = record {
    at = λ a y a' (h, d) e.
        let (prev, res, s, write, value, same) = upsert_kv-Steps api u a a' y e in
        (
          (upsert_kv-Keeps (PublishedIs-invariant es) u).at a y a' h e,
          subst (λ (b : Applier api). All Differs b.changes) same
              (Differs-push_change u.key _ _
                (record a { sm = update_expire_index api u.key prev res s }) d),
        );
  }

  published-publish :
      (es : List Event) (s : api.State)
      → laws.published (publish api enums es s) ≡ laws.published s ++ es
  unfolding publish
  published-publish [] s = sym (append_nil (laws.published s))
  published-publish (e ∷ es) s =
      published-publish es (api.on_change_applied e s)
      ∙ ap (λ l. l ++ es) (laws.published-on_change e s)
      ∙ append_assoc (laws.published s) (e ∷ []) es

  -- An entry that is applied, by an applier with nothing to tell, tells subscribers of changes only where the value
  -- before differs from the value after, after all that they were told, and keeps no change for later.
  pub published-apply :
      (entry : Entry) (a a' : Applier api) (r : AppliedState)
      → a.changes ≡ []
      → apply api enums entry a ≡ (ok r, a')
      → (es : List Event) × All Differs es
        × (laws.published a'.sm ≡ laws.published a.sm ++ es)
        × (a'.changes ≡ [])
  unfolding Waiting
  published-apply entry a a' r empty h =
      let (cleaned, done, clean, payload, same) = apply-steps enums entry a a' r h in
      let before = laws.published a.sm in
      let P = Waiting before in
      let kept_clean : P cleaned =
        (Keeps-clean_expired_kvs {P = P} (Waiting-upsert_kv before)
            (λ now b (h', d). (laws.published-set_cleanup_start _ b.sm ∙ h', d))
            (get_log_time entry)).at
          (started enums entry a) tt cleaned (refl, rw empty tt) clean in
      let marked = update_sys_data api enums (set_last_applied api enums entry.log_id) cleaned in
      let kept : P done =
        (Keeps-apply_payload {P = P} (Waiting-upsert_kv before) (Waiting-push_change before) enums
            (λ f b e (h', d). (laws.published-put_sys_data (f (api.sys_data b.sm)) b.sm ∙ h', d))
            entry.log_id entry.payload).at
          marked r done (laws.published-put_sys_data _ cleaned.sm ∙ kept_clean.0, kept_clean.1)
          payload in
      (
        done.changes,
        kept.1,
        ap (λ (b : Applier api). laws.published b.sm) (sym same)
            ∙ published-publish done.changes done.sm
            ∙ ap (λ l. l ++ done.changes) kept.0,
        ap (λ (b : Applier api). b.changes) (sym same),
      )
