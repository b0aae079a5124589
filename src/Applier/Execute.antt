-- ===== src/Applier/Execute.antt =====
-- The operations of a transaction: `execute_op` and what it dispatches to.
use databend_meta.Common.{
  ℕ, ◌+◌, ◌%◌, max, Bool, false, ◌&&◌, not, Option, none, some, [], ◌∷◌, Text, Bytes, ok, err,
  Action, and_then, IoStream, option_map, unwrap_or, is_some, is_none, if◌then◌else◌, ◌==◌,
}
use databend_meta.Common.Int.{pos, u32_mod, saturating_add_signed}
use databend_meta.Types.SeqV.{SeqV, seq_of, seqv_to_pb}
use databend_meta.Types.Upsert.{UpsertKv, exact, update_kv, delete_kv, with_seq, with_meta}
use databend_meta.KvTransaction.Operation.{
  Get, Put, Delete, DeleteByPrefix, FetchIncreaseU64, PutSequential, to_meta_spec, just_lookup,
}
use databend_meta.KvTransaction.Defs
use databend_meta.KvTransaction.Defs.{Operation}
use databend_meta.Keys.Sequential.{build_key}
use databend_meta.StateMachine.Api.{StateMachineApi}
use databend_meta.StateMachine.Ext.{get_maybe_expired_kv, list_kv}
use databend_meta.Applier.Response
use databend_meta.Applier.Response.{
  TxnGetResponse, TxnPutResponse, TxnDeleteResponse, TxnDeleteByPrefixResponse,
  FetchIncreaseU64Response, TxnOpResponse, new_fetch_response, new_unchanged,
}
use databend_meta.Applier.Defs.{Applier, reads, upsert_kv, push_change, ◌>>=◌, pure}

abbrev pub guarded : UpsertKv → Option ℕ → UpsertKv
guarded u none = u
guarded u (some n) = with_seq u (exact n)

-- the upsert of `execute_put`
unfoldable pub put_upsert : Put → UpsertKv
unfolding update_kv with_meta with_seq to_meta_spec
put_upsert op =
    guarded (with_meta (update_kv op.target.key op.payload.value) (to_meta_spec op.payload))
      op.target.match_seq

-- the upsert of `execute_delete`
unfoldable pub delete_upsert : Delete → UpsertKv
unfolding delete_kv with_seq
delete_upsert op = guarded (delete_kv op.target.key) op.target.match_seq

module _ (api : StateMachineApi) where
  open api use {read_u64, write_u64}

  unfoldable pub execute_get : Get → Action (Applier api) TxnGetResponse
  unfolding get_maybe_expired_kv seqv_to_pb
  execute_get op = do
    sv ← reads api (λ a. get_maybe_expired_kv api op.key a.sm)
    pure (record { key = op.key; value = option_map seqv_to_pb sv })

  abbrev pub put_reply : Text → Option (SeqV Bytes) × Option (SeqV Bytes) → TxnPutResponse
  put_reply key (prev, result) = record {
    key = key;
    prev_value = option_map seqv_to_pb prev;
    current = option_map seqv_to_pb result;
  }

  unfoldable pub execute_put : Put → Action (Applier api) TxnPutResponse
  unfolding upsert_kv put_upsert seqv_to_pb
  execute_put op = do
    changed ← upsert_kv api (put_upsert op)
    pure (put_reply op.target.key changed)

  abbrev pub delete_reply : Text → Option (SeqV Bytes) × Option (SeqV Bytes) → TxnDeleteResponse
  delete_reply key (prev, result) = record {
    key = key;
    success = is_some prev && is_none result;
    prev_value = option_map seqv_to_pb prev;
  }

  unfoldable pub execute_delete : Delete → Action (Applier api) TxnDeleteResponse
  unfolding upsert_kv delete_upsert seqv_to_pb
  execute_delete op = do
    changed ← upsert_kv api (delete_upsert op)
    pure (delete_reply op.target.key changed)

  -- the `while let` over the stream; the change is pushed here once more. The `u32` count wraps in a release
  -- build.
  unfoldable pub delete_listed : IoStream (Text × SeqV Bytes) → ℕ → Action (Applier api) ℕ
  unfolding upsert_kv push_change delete_kv
  delete_listed [] count a = (ok count, a)
  delete_listed (err e ∷ strm) count a = (err e, a)
  delete_listed (ok (key, sv) ∷ strm) count a =
      and_then (upsert_kv api (delete_kv key) a) λ (prev, res) a1.
        delete_listed strm ((count + 1) % u32_mod) (push_change api key prev res a1)

  unfoldable pub execute_delete_by_prefix :
      DeleteByPrefix → Action (Applier api) TxnDeleteByPrefixResponse
  unfolding list_kv delete_listed
  execute_delete_by_prefix op = do
    strm ← reads api (λ a. list_kv api op.prefix a.sm)
    count ← delete_listed strm 0
    pure (record { prefix = op.prefix; count = count })

  -- a value that is no JSON number is read as 0
  abbrev pub stored_u64 : Option (SeqV Bytes) → ℕ
  stored_u64 none = 0
  stored_u64 (some v) = unwrap_or (read_u64 v.value) 0

  abbrev pub counter_of : ℕ → ℕ → SeqV ℕ
  counter_of seq n = record { seq = seq; meta = none; value = n }

  abbrev pub guard_fails : Option ℕ → ℕ → Bool
  guard_fails none before_seq = false
  guard_fails (some n) before_seq = not (n == before_seq)

  -- First the floor, then the delta.
  unfoldable pub increased : FetchIncreaseU64 → ℕ → ℕ
  unfolding saturating_add_signed
  increased op before = saturating_add_signed (max before op.floor) op.delta

  abbrev pub increased_reply :
      FetchIncreaseU64
      → ℕ
      → ℕ
      → Option (SeqV Bytes) × Option (SeqV Bytes)
      → FetchIncreaseU64Response
  increased_reply op before_seq before (_, result) =
      new_fetch_response op.target.key (counter_of before_seq before)
        (counter_of (seq_of result) (increased op before))

  -- the write of the increased counter
  unfoldable pub store_increased :
      FetchIncreaseU64 → ℕ → ℕ → Action (Applier api) FetchIncreaseU64Response
  unfolding increased upsert_kv update_kv new_fetch_response
  store_increased op before_seq before = do
    changed ← upsert_kv api (update_kv op.target.key (write_u64 (increased op before)))
    pure (increased_reply op before_seq before changed)

  abbrev pub fetch_increase_found :
      FetchIncreaseU64 → ℕ → ℕ → Action (Applier api) FetchIncreaseU64Response
  fetch_increase_found op before_seq before =
      if guard_fails op.target.match_seq before_seq
      then pure (new_unchanged op.target.key (counter_of before_seq before))
      else store_increased op before_seq before

  unfoldable pub execute_fetch_increase_u64 :
      FetchIncreaseU64 → Action (Applier api) FetchIncreaseU64Response
  unfolding get_maybe_expired_kv store_increased new_unchanged
  execute_fetch_increase_u64 op = do
    found ← reads api (λ a. get_maybe_expired_kv api op.target.key a.sm)
    fetch_increase_found op (seq_of found) (stored_u64 found)

  unfoldable pub execute_put_sequential : PutSequential → Action (Applier api) TxnPutResponse
  unfolding execute_fetch_increase_u64 just_lookup build_key upsert_kv update_kv with_meta
      to_meta_spec seqv_to_pb
  execute_put_sequential op = do
    fetched ←
        execute_fetch_increase_u64
          (record { target = just_lookup op.sequence_key; delta = pos 1; floor = 0 })
    let key = build_key op.prefix fetched.before
    changed ← upsert_kv api (with_meta (update_kv key op.payload.value) (to_meta_spec op.payload))
    pure (put_reply key changed)

  unfoldable pub execute_op : Operation → Action (Applier api) TxnOpResponse
  unfolding execute_get execute_put execute_delete execute_delete_by_prefix
      execute_fetch_increase_u64 execute_put_sequential
  execute_op (Defs.get op) = do r ← execute_get op; pure (Response.get r)
  execute_op (Defs.put op) = do r ← execute_put op; pure (Response.put r)
  execute_op (Defs.delete op) = do r ← execute_delete op; pure (Response.delete r)
  execute_op (Defs.delete_by_prefix op) = do
    r ← execute_delete_by_prefix op
    pure (Response.delete_by_prefix r)
  execute_op (Defs.fetch_increase_u64 op) = do
    r ← execute_fetch_increase_u64 op
    pure (Response.fetch_increase_u64 r)
  execute_op (Defs.put_sequential op) = do r ← execute_put_sequential op; pure (Response.put r)
