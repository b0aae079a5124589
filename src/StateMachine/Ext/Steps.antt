-- ===== src/StateMachine/Ext/Steps.antt =====
-- What holds between the states before and after every write of one key holds between those before and
-- after an upsert of the key.
use databend_meta.Common.{
  ◌≡◌, subst, ap, Bool, true, false, Option, none, some, Text, Bytes, Result, ok, err, IoError,
  Action, and_then, with_read, and_then-ok, if◌then◌else◌, unwrap_or,
}
use databend_meta.Types.Time.{millis}
use databend_meta.Types.MetaSpec
use databend_meta.Types.SeqV.{KvMeta}
use databend_meta.Types.Upsert.{UpsertKv, Operation, update, delete, as_is}
use databend_meta.Types.CmdContext.{CmdContext, resolve_meta_spec}
use databend_meta.StateMachine.Api.{StateMachineApi, MetaValue}
use databend_meta.StateMachine.Ext.{
  set_meta, update_found, write_operation, delete_if_expired, upsert_found, upsert_kv_primary_index,
}

-- A relation between states that holds along every write of `key`.
pub record WriteRelation (api : StateMachineApi) (key : Text) : Type 1 where
  pub R : api.State → api.State → Type 0
  pub refl' : (s : api.State) → R s s
  pub trans' : (s t u : api.State) → R s t → R t u → R s u
  pub write :
      (v : Option MetaValue) (s s' : api.State) (p r : api.Marked)
      → api.fetch_and_set key v s ≡ (ok (p, r), s')
      → R s s'

module _ (api : StateMachineApi) (key : Text) (rel : WriteRelation api key) where
  open api use {State, Marked, into_data, get, fetch_and_set}
  open rel use {R}

  -- An action that succeeds ends in a related state.
  record Along {A : Type 0} (s : State) (m : Result A × State) : Type 0 where
    at : (a : A) (s' : State) → m ≡ (ok a, s') → R s s'

  Along-ok : {A : Type 0} (a : A) (s : State) → Along s (ok a, s)
  Along-ok {A = A} a s = record {
    at = λ b s' h.
        let same : ◌≡◌ {A = State} s s' = ap (λ (p : Result A × State). p.1) h in
        subst (R s) same (rel.refl' s);
  }

  Along-err : {A : Type 0} (x : IoError) (s : State) → Along {A = A} s (err x, s)
  Along-err x s = record { at = λ b s' h. cc }

  Along-set : (v : Option MetaValue) (s : State) → Along s (fetch_and_set key v s)
  Along-set v s = record { at = λ (p, r) s' h. rel.write v s s' p r h }

  Along-and_then :
      {A B : Type 0} (s : State) (m : Result A × State) (f : A → Action State B)
      → Along s m
      → ((a : A) (s1 : State) → Along s1 (f a s1))
      → Along s (and_then m f)
  Along-and_then s m f fm ff = record {
    at = λ b s' h.
        let (a, s1, e, e') = and_then-ok m f h in
        rel.trans' s s1 s' (fm.at a s1 e) ((ff a s1).at b s' e');
  }

  Along-with_read :
      {A B : Type 0} (r : Result A) (f : A → Action State B) (s : State)
      → ((a : A) → Along s (f a s))
      → Along s (with_read r f s)
  Along-with_read (ok a) f s h = h a
  Along-with_read (err x) f s h = Along-err x s

  Along-if :
      {A : Type 0} (b : Bool) (s : State) (m n : Result A × State)
      → Along s m
      → Along s n
      → Along s (if b then m else n)
  Along-if true s m n fm fn = fm
  Along-if false s m n fm fn = fn

  Along-set_meta :
      (meta : KvMeta) (d : Option MetaValue) (s : State) → Along s (set_meta api key meta d s)
  Along-set_meta meta (some (m, v)) s = Along-set (some (some meta, v)) s
  Along-set_meta meta none s = Along-err _ s

  Along-write_operation :
      (meta : KvMeta) (op : Operation Bytes) (s : State)
      → Along s (write_operation api key meta op s)
  unfolding write_operation
  Along-write_operation meta (update v) s = Along-set (some (some meta, v)) s
  Along-write_operation meta delete s = Along-set none s
  Along-write_operation meta as_is s =
      Along-with_read (get key s) (update_found api key meta) s
        λ got. Along-if _ s _ _ (Along-ok (got, got) s) (Along-set_meta meta (into_data got) s)

  Along-delete_if_expired :
      (meta : KvMeta) (now : _) (pr : Marked × Marked) (s : State)
      → Along s (delete_if_expired api key meta now pr s)
  unfolding delete_if_expired
  Along-delete_if_expired meta now (p, r) s =
      Along-if _ s _ _ (Along-and_then s _ _ (Along-set none s) (λ (q, r') s1. Along-ok (p, r') s1))
        (Along-ok (p, r) s)

-- An upsert that succeeds, on any branch, ends in a state that is related to the first one.
pub related-upsert_kv_primary_index :
    (api : StateMachineApi) (u : UpsertKv) (rel : WriteRelation api u.key) (ctx : CmdContext)
    (s s' : api.State) (pr : api.Marked × api.Marked)
    → upsert_kv_primary_index api u ctx s ≡ (ok pr, s')
    → rel.R s s'
unfolding upsert_kv_primary_index
related-upsert_kv_primary_index api u rel ctx s s' pr h =
    let meta = resolve_meta_spec ctx (unwrap_or u.value_meta MetaSpec.default) in
    (Along-with_read api u.key rel (api.get u.key s) (upsert_found api u ctx meta) s λ got.
        Along-if api u.key rel _ s _ _
          (Along-and_then api u.key rel s _ _ (Along-write_operation api u.key rel meta u.value s)
            (Along-delete_if_expired api u.key rel meta (millis ctx.time)))
          (Along-ok api u.key rel (got, got) s)).at
      pr s' h
