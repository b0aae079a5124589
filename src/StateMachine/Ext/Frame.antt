-- ===== src/StateMachine/Ext/Frame.antt =====
-- `upsert_kv_primary_index` writes one key.
use databend_meta.Common.{◌≡◌, ◌≢◌, ◌∙◌, refl, Text, ok}
use databend_meta.Types.Upsert.{UpsertKv}
use databend_meta.Types.CmdContext.{CmdContext}
use databend_meta.StateMachine.Api.{StateMachineApi}
use databend_meta.StateMachine.Laws.{MapLaws}
use databend_meta.StateMachine.Ext.{upsert_kv_primary_index}
use databend_meta.StateMachine.Ext.Steps.{WriteRelation, related-upsert_kv_primary_index}

abbrev same_entry :
    (api : StateMachineApi) (laws : MapLaws api) (j key : Text) → j ≢ key → WriteRelation api key
same_entry api laws j key n = record {
  R = λ s s'. api.get j s' ≡ api.get j s;
  refl' = λ s. refl;
  trans' = λ s t u st tu. tu ∙ st;
  write = λ v s s' p r h. laws.get_other key v s s' p r j h n;
}

-- An upsert that succeeds, on any branch, leaves the entry of every other key as it was.
pub get-upsert_kv_primary_index_ne :
    (api : StateMachineApi) (laws : MapLaws api) (j : Text) (u : UpsertKv) (ctx : CmdContext)
    (s s' : api.State) (prev res : api.Marked)
    → j ≢ u.key
    → upsert_kv_primary_index api u ctx s ≡ (ok (prev, res), s')
    → api.get j s' ≡ api.get j s
get-upsert_kv_primary_index_ne api laws j u ctx s s' prev res n h =
    related-upsert_kv_primary_index api u (same_entry api laws j u.key n) ctx s s' (prev, res) h
