-- ===== src/Applier/KeepsCmd.antt =====
-- What a command and the cleaning of expired keys keep, and the steps of one log entry.
use databend_meta.Common.{
  ℕ, ◌≡◌, refl, ◌∙◌, subst, ap, Bool, true, false, Option, List, [], ◌∷◌, Text, Bytes, Result, ok,
  and_then, and_then-ok, IoStream, if◌then◌else◌, ◌==◌,
}
use databend_meta.Types.SeqV.{SeqV}
use databend_meta.Types.Upsert.{UpsertKv, delete_kv}
use databend_meta.Types.SysData.{LogId, SysData}
use databend_meta.Types.CmdContext.{from_millis_and_log_id}
use databend_meta.KvTransaction.Proto.{ProtoEnums}
use databend_meta.KvTransaction.Convert.{transaction_from_txn_request}
use databend_meta.StateMachine.Api.{StateMachineApi, ExpireKey}
use databend_meta.StateMachine.Ext.{list_expire_index}
use databend_meta.Applier.Response
use databend_meta.Applier.Response.{AppliedState}
use databend_meta.Applier.Defs.{Applier, reads, upsert_kv, push_change, ◌>>=◌, pure}
use databend_meta.Applier.Transaction.{apply_kv_transaction}
use databend_meta.Applier.Clean.{
  collect_expired, delete_expired, save_cleanup_start, clean_listed, clean_expired_kvs,
}
use databend_meta.Applier.Command
use databend_meta.Applier.Command.{
  Cmd, Entry, EntryPayload, get_log_time, update_sys_data, set_node, drop_node, toggle, returns,
  set_last_applied, set_membership, drain_changes, kv_reply, apply_add_node, apply_remove_node,
  apply_set_feature, apply_upsert_kv, apply_cmd, apply_payload, publish, apply,
}
use databend_meta.Applier.Keeps.{
  Keeps, Keeps-pure, Keeps-reads, Keeps-bind, Keeps-if, Keeps-apply_kv_transaction,
}

module _ {api : StateMachineApi} {P : Applier api → Type 0}
    (keeps_upsert : (u : UpsertKv) → Keeps api P (upsert_kv api u))
    (keeps_cleanup : (now : ℕ) (a : Applier api) → P a → P (save_cleanup_start api now a)) where
  Keeps-delete_expired : (ks : List (ExpireKey × Text)) → Keeps api P (delete_expired api ks)
  unfolding delete_expired
  Keeps-delete_expired [] = Keeps-pure tt
  Keeps-delete_expired ((expire_key, key) ∷ ks) =
      Keeps-bind (upsert_kv api (delete_kv key)) (λ _. delete_expired api ks)
        (keeps_upsert (delete_kv key)) (λ _. Keeps-delete_expired ks)

  Keeps-clean_listed :
      (now : ℕ) (strm : IoStream (ExpireKey × Text)) → Keeps api P (clean_listed api now strm)
  Keeps-clean_listed now strm = record {
    at = λ a y a' h.
        (Keeps-bind (reads api (λ _. collect_expired api now strm)) (delete_expired api)
            (Keeps-reads (λ _. collect_expired api now strm)) Keeps-delete_expired).at
          (save_cleanup_start api now a) y a' (keeps_cleanup now a h);
  }

  pub Keeps-clean_expired_kvs : (now : ℕ) → Keeps api P (clean_expired_kvs api now)
  unfolding clean_expired_kvs
  Keeps-clean_expired_kvs now =
      Keeps-if (now == 0) (pure tt)
        (reads api (λ a. list_expire_index api now a.sm) >>= clean_listed api now) (Keeps-pure tt)
        (Keeps-bind (reads api (λ a. list_expire_index api now a.sm)) (clean_listed api now)
          (Keeps-reads (λ a. list_expire_index api now a.sm)) (Keeps-clean_listed now))

module _ {api : StateMachineApi} {P : Applier api → Type 0}
    (keeps_upsert : (u : UpsertKv) → Keeps api P (upsert_kv api u))
    (keeps_push : (key : Text) (prev result : Option (SeqV Bytes)) (a : Applier api)
      → P a
      → P (push_change api key prev result a))
    (enums : ProtoEnums)
    (keeps_sys : (f : SysData → SysData) (a : Applier api)
      → (f (api.sys_data a.sm)).last_applied ≡ (api.sys_data a.sm).last_applied
      → P a
      → P (update_sys_data api enums f a)) where
  Keeps-returns :
      (f : Applier api → AppliedState × Applier api)
      → ((a : Applier api) → P a → P (f a).1)
      → Keeps api P (returns api enums f)
  Keeps-returns f kf = record {
    at = λ a y a' h e.
        let same : ◌≡◌ {A = Applier api} (f a).1 a' =
          ap (λ (p : Result AppliedState × Applier api). p.1) e in
        subst P same (kf a h);
  }

  Keeps-transaction :
      (txn : _)
      → Keeps api P
          (apply_kv_transaction api txn >>= λ reply. pure (Response.kv_transaction_reply reply))
  Keeps-transaction txn =
      Keeps-bind (apply_kv_transaction api txn)
        (λ reply. pure (Response.kv_transaction_reply reply))
        (Keeps-apply_kv_transaction keeps_upsert keeps_push txn)
        (λ reply. Keeps-pure (Response.kv_transaction_reply reply))

  if-keeps :
      (b : Bool) (x y : AppliedState × Applier api) → P x.1 → P y.1 → P (if b then x else y).1
  if-keeps true x y hx hy = hx
  if-keeps false x y hx hy = hy

  Keeps-apply_add_node :
      (id : ℕ) (node : _) (overriding : Bool)
      → Keeps api P (returns api enums (apply_add_node api enums id node overriding))
  unfolding apply_add_node
  Keeps-apply_add_node id node overriding =
      Keeps-returns (apply_add_node api enums id node overriding)
        (λ a h. if-keeps _ _ _ (keeps_sys (set_node api enums id node) a refl h) h)

  Keeps-apply_upsert_kv : (u : UpsertKv) → Keeps api P (apply_upsert_kv api enums u)
  unfolding apply_upsert_kv
  Keeps-apply_upsert_kv u =
      Keeps-bind (upsert_kv api u) (λ changed. pure (kv_reply api enums changed)) (keeps_upsert u)
        (λ changed. Keeps-pure (kv_reply api enums changed))

  pub Keeps-apply_cmd : (cmd : Cmd) → Keeps api P (apply_cmd api enums cmd)
  unfolding apply_cmd apply_remove_node apply_set_feature
  Keeps-apply_cmd (Command.add_node id node overriding) = Keeps-apply_add_node id node overriding
  Keeps-apply_cmd (Command.remove_node id) =
      Keeps-returns (apply_remove_node api enums id)
        (λ a. keeps_sys (drop_node api enums id) a refl)
  Keeps-apply_cmd (Command.set_feature feature true) =
      Keeps-returns (apply_set_feature api enums feature true)
        (λ a. keeps_sys (toggle api enums feature true) a refl)
  Keeps-apply_cmd (Command.set_feature feature false) =
      Keeps-returns (apply_set_feature api enums feature false)
        (λ a. keeps_sys (toggle api enums feature false) a refl)
  Keeps-apply_cmd (Command.upsert u) = Keeps-apply_upsert_kv u
  Keeps-apply_cmd (Command.transaction txn) =
      Keeps-transaction (transaction_from_txn_request enums txn)
  Keeps-apply_cmd (Command.kv_transaction txn) = Keeps-transaction txn

  pub Keeps-apply_payload :
      (log_id : LogId) (payload : EntryPayload)
      → Keeps api P (apply_payload api enums log_id payload)
  unfolding apply_payload
  Keeps-apply_payload log_id Command.blank = Keeps-pure Response.nothing
  Keeps-apply_payload log_id (Command.normal entry) = Keeps-apply_cmd entry.cmd
  Keeps-apply_payload log_id (Command.membership members) =
      Keeps-returns
        (λ a.
          (Response.nothing, update_sys_data api enums (set_membership api enums log_id members) a))
        (λ a. keeps_sys (set_membership api enums log_id members) a refl)

module _ {api : StateMachineApi} (enums : ProtoEnums) where
  abbrev pub started : Entry → Applier api → Applier api
  started entry a = record a { cmd_ctx = from_millis_and_log_id (get_log_time entry) entry.log_id }

  -- An entry that is applied was applied in all its steps.
  pub apply-steps :
      (entry : Entry) (a a' : Applier api) (r : AppliedState)
      → apply api enums entry a ≡ (ok r, a')
      → (cleaned : Applier api) × (done : Applier api) × (clean_expired_kvs api
            (get_log_time entry)
            (started entry a)
          ≡ (ok tt, cleaned))
        × (apply_payload api enums entry.log_id entry.payload
              (update_sys_data api enums (set_last_applied api enums entry.log_id) cleaned)
            ≡ (ok r, done))
        × (record done { sm = publish api enums done.changes done.sm; changes = [] } ≡ a')
  unfolding apply
  apply-steps entry a a' r e =
      let (u, cleaned, first, rest) =
        and_then-ok (clean_expired_kvs api (get_log_time entry) (started entry a))
          (λ _ c.
            and_then
              (apply_payload api enums entry.log_id entry.payload
                (update_sys_data api enums (set_last_applied api enums entry.log_id) c))
              (drain_changes api enums))
          e in
      let (st, done, second, drained) =
        and_then-ok
          (apply_payload api enums entry.log_id entry.payload
            (update_sys_data api enums (set_last_applied api enums entry.log_id) cleaned))
          (drain_changes api enums) rest in
      let same : ◌≡◌ {A = Result AppliedState} (ok st) (ok r) =
        ap (λ (p : Result AppliedState × Applier api). p.0) drained in
      let end : ◌≡◌ {A = Applier api}
          (record done { sm = publish api enums done.changes done.sm; changes = [] }) a' =
        ap (λ (p : Result AppliedState × Applier api). p.1) drained in
      (cleaned, done, first, second ∙ ap (λ (q : Result AppliedState). (q, done)) same, end)
