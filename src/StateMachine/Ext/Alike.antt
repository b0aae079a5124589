-- ===== src/StateMachine/Ext/Alike.antt =====
-- What `upsert_kv_primary_index` reads of an upsert besides its key and its operation.
use databend_meta.Common.{ℕ, ◌≡◌, refl, Option, Result, ok, err, with_read, unwrap_or}
use databend_meta.Types.MetaSpec
use databend_meta.Types.MetaSpec.{MetaSpec}
use databend_meta.Types.Upsert.{UpsertKv, MatchSeq}
use databend_meta.Types.CmdContext.{CmdContext, resolve_meta_spec}
use databend_meta.StateMachine.Api.{StateMachineApi}
use databend_meta.StateMachine.Ext.{upsert_found, upsert_kv_primary_index}

module _ (api : StateMachineApi) where
  open api use {Marked, State, match_seq, seq}

  -- Upserts of one key by one operation do the same where their tests on the sequence number agree and their specs
  -- resolve to the same meta.
  pub upsert_kv_primary_index-alike :
      (u : UpsertKv) (seq' : MatchSeq) (spec : Option MetaSpec)
      → ((n : ℕ) → match_seq seq' n ≡ match_seq u.seq n)
      → unwrap_or spec MetaSpec.default ≡ unwrap_or u.value_meta MetaSpec.default
      → (ctx : CmdContext) (s : State)
      → upsert_kv_primary_index api (record u { seq = seq'; value_meta = spec }) ctx s
        ≡ upsert_kv_primary_index api u ctx s
  unfolding upsert_kv_primary_index
  upsert_kv_primary_index-alike u seq' spec seqs specs ctx s = rw specs (go (api.get u.key s))
    where
      go :
          (r : Result Marked)
          → with_read r
              (upsert_found api
                (record u { seq = seq'; value_meta = spec })
                ctx
                (resolve_meta_spec ctx (unwrap_or u.value_meta MetaSpec.default)))
              s
            ≡ with_read r
                (upsert_found api u ctx
                  (resolve_meta_spec ctx (unwrap_or u.value_meta MetaSpec.default)))
                s
      go (ok got) = rw (seqs (seq got))
      go (err e) = refl
