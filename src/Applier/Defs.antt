-- ===== src/Applier/Defs.antt =====
-- The applier's state, and what its methods are built from.
use databend_meta.Common.{
  Option, List, [], ◌∷◌, ◌++◌, Text, Bytes, Result, ok, Action, and_then, option_eq, if◌then◌else◌,
}
use databend_meta.Types.SeqV.{SeqV, seqv_eq}
use databend_meta.Types.Upsert.{UpsertKv}
use databend_meta.Types.CmdContext
use databend_meta.Types.CmdContext.{CmdContext}
use databend_meta.StateMachine.Api.{StateMachineApi, Event}
use databend_meta.StateMachine.Ext.{upsert_kv_primary_index, update_expire_index}

pub record Applier (api : StateMachineApi) : Type 0 where
  pub sm : api.State
  pub cmd_ctx : CmdContext
  pub changes : List Event

module _ (api : StateMachineApi) where
  open api use {State, Marked, to_seqv}

  -- `Applier::new`
  unfoldable pub new : State → Applier api
  unfolding CmdContext.from_millis
  new sm = record { sm = sm; cmd_ctx = CmdContext.from_millis 0; changes = [] }

  -- an action of `self.sm`
  abbrev pub on_sm : {A : Type 0} → Action State A → Action (Applier api) A
  on_sm m a = let (r, s) = m a.sm in (r, record a { sm = s })

  -- a read of the applier
  abbrev pub reads : {A : Type 0} → (Applier api → Result A) → Action (Applier api) A
  reads f a = (f a, a)

  -- `push_change` records nothing for a value that stayed.
  unfoldable pub push_change :
      Text → Option (SeqV Bytes) → Option (SeqV Bytes) → Applier api → Applier api
  unfolding seqv_eq
  push_change key prev result a = if option_eq seqv_eq prev result then a else record a {
    changes = a.changes ++ record { key = key; prev = prev; result = result } ∷ [];
  }

  abbrev pub index_and_push :
      UpsertKv → Marked × Marked → Action (Applier api) (Option (SeqV Bytes) × Option (SeqV Bytes))
  index_and_push u (prev, result) a = (
    ok (to_seqv prev, to_seqv result),
    push_change u.key (to_seqv prev) (to_seqv result)
        (record a { sm = update_expire_index api u.key prev result a.sm }),
  )

  unfoldable pub upsert_kv :
      UpsertKv → Action (Applier api) (Option (SeqV Bytes) × Option (SeqV Bytes))
  unfolding upsert_kv_primary_index update_expire_index push_change
  upsert_kv u a = and_then (on_sm (upsert_kv_primary_index api u a.cmd_ctx) a) (index_and_push u)

infixl 5 ◌>>=◌
-- a step and then the rest, in a `do` block
abbrev pub ◌>>=◌ : {S A B : Type 0} → Action S A → (A → Action S B) → Action S B
◌>>=◌ m f s = and_then (m s) f

abbrev pub pure : {S A : Type 0} → A → Action S A
pure x s = (ok x, s)
