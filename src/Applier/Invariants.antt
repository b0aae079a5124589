-- ===== src/Applier/Invariants.antt =====
-- What an applied entry leaves in the state machine: its log id.
use databend_meta.Common.{◌≡◌, ◌∙◌, subst, sym, ap, Option, some, List, [], ◌∷◌, Text, Bytes, ok}
use databend_meta.Types.SeqV.{SeqV}
use databend_meta.Types.SysData.{LogId}
use databend_meta.KvTransaction.Proto.{ProtoEnums}
use databend_meta.StateMachine.Api.{StateMachineApi, Event}
use databend_meta.StateMachine.Laws.{SystemLaws}
use databend_meta.Applier.Response.{AppliedState}
use databend_meta.Applier.Defs.{Applier, push_change}
use databend_meta.Applier.Command.{Entry, apply, publish, update_sys_data, set_last_applied}
use databend_meta.Applier.Upsert.{StateInvariant, upsert_kv-Keeps, sm-push_change}
use databend_meta.Applier.KeepsCmd.{Keeps-apply_payload, apply-steps}

module _ (api : StateMachineApi) where
  open api use {State, sys_data}

  push_change-keeps :
      (Q : State → Type 0) (key : Text) (prev result : Option (SeqV Bytes)) (a : Applier api)
      → Q a.sm
      → Q (push_change api key prev result a).sm
  push_change-keeps Q key prev result a h = subst Q (sym (sm-push_change api key prev result a)) h

  publish-keeps :
      (enums : ProtoEnums) (Q : State → Type 0)
      → ((e : Event) (s : State) → Q s → Q (api.on_change_applied e s))
      → (es : List Event) (s : State) → Q s
      → Q (publish api enums es s)
  unfolding publish
  publish-keeps enums Q kept [] s h = h
  publish-keeps enums Q kept (e ∷ es) s h =
      publish-keeps enums Q kept es (api.on_change_applied e s) (kept e s h)

module _ (api : StateMachineApi) (enums : ProtoEnums) (laws : SystemLaws api) where
  AppliedIs : Option LogId → api.State → Type 0
  AppliedIs last s = (api.sys_data s).last_applied ≡ last

  same_sys_data :
      (last : Option LogId) (s s' : api.State)
      → api.sys_data s' ≡ api.sys_data s
      → AppliedIs last s
      → AppliedIs last s'
  unfolding AppliedIs
  same_sys_data last s s' e h = ap (λ d. d.last_applied) e ∙ h

  AppliedIs-invariant : (last : Option LogId) → StateInvariant api (AppliedIs last)
  AppliedIs-invariant last = record {
    set = λ k v s s' p r e.
        same_sys_data last s s'
          (ap (λ q. api.sys_data q.1) (sym e) ∙ laws.sys_data-fetch_and_set k v s);
    index = λ e v s. same_sys_data last s (api.expire_set e v s) (laws.sys_data-expire_set e v s);
  }

  -- Where an entry is applied without an error, whatever its payload is and whatever is cleaned and published: the state
  -- machine records its log id as the last applied one.
  pub last_applied-apply :
      (entry : Entry) (a a' : Applier api) (r : AppliedState)
      → apply api enums entry a ≡ (ok r, a')
      → (api.sys_data a'.sm).last_applied ≡ some entry.log_id
  unfolding AppliedIs
  last_applied-apply entry a a' r h =
      let (cleaned, done, clean, payload, same) = apply-steps enums entry a a' r h in
      let Q = AppliedIs (some entry.log_id) in
      let marked = update_sys_data api enums (set_last_applied api enums entry.log_id) cleaned in
      let kept : Q done.sm =
        (Keeps-apply_payload {P = λ a. Q a.sm}
            (upsert_kv-Keeps (AppliedIs-invariant (some entry.log_id))) (push_change-keeps api Q)
            enums
            (λ f b e h'.
              ap (λ d. d.last_applied) (laws.sys_data-put (f (api.sys_data b.sm)) b.sm) ∙ e ∙ h')
            entry.log_id entry.payload).at
          marked r done (ap (λ d. d.last_applied) (laws.sys_data-put _ cleaned.sm)) payload in
      subst (λ (b : Applier api). Q b.sm) same
        (publish-keeps api enums Q
          (λ e s.
            same_sys_data (some entry.log_id) s (api.on_change_applied e s)
              (laws.sys_data-on_change e s))
          done.changes done.sm kept)
