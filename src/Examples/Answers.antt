-- ===== src/Examples/Answers.antt =====
-- Runs of puts, deletions and the cleaning of expired keys.
use databend_meta.Common.{
  ◌≡◌, refl, true, ◌&&◌, Option, none, some, [], ◌∷◌, Text, Bytes, ok, IoStream, All, is_some,
  if◌then◌else◌, option_map, text_eq,
}
use databend_meta.Types.SeqV.{SeqV, seq_of, seqv_to_pb}
use databend_meta.Types.Upsert.{update_kv, delete_kv, with_seq, with_meta}
use databend_meta.Types.CmdContext.{resolve_meta_spec}
use databend_meta.KvTransaction.Operation.{Put, Delete, to_meta_spec}
use databend_meta.StateMachine.Api.{ExpireKey}
use databend_meta.StateMachine.Ext.{
  get_maybe_expired_kv, write_operation, delete_if_expired, list_expire_index,
}
use databend_meta.StateMachine.Memory.{memory}
use databend_meta.StateMachine.Memory.Lawful.{memory_values, memory_map}
use databend_meta.Applier.Response.{TxnPutResponse, TxnDeleteResponse}
use databend_meta.Applier.Defs.{Applier, push_change}
use databend_meta.Applier.Execute.{execute_put, execute_delete, put_upsert, delete_upsert}
use databend_meta.Applier.Answers.{may_delete}
use databend_meta.Applier.Puts.{put_result, execute_put_lem}
use databend_meta.Applier.Deletions.{execute_delete_lem}
use databend_meta.Applier.Clean.{clean_expired_kvs}
use databend_meta.Applier.Expired.{expired_before}
use databend_meta.Applier.Cleaned.{Absent, clean_expired_kvs-Absent}
use databend_meta.Common.{ℕ, arith, ap, min, ◌+◌, ◌≢◌}
use databend_meta.Common.Int.{u64_max, saturating_add_signed}
use databend_meta.KvTransaction.Operation.{PutSequential, just_lookup}
use databend_meta.Keys.Sequential.{build_key}
use databend_meta.Applier.Response.{new_fetch_response}
use databend_meta.Applier.Execute.{stored_u64, increased, execute_put_sequential}
use databend_meta.Applier.Sequence.{execute_put_sequential_lem}
use databend_meta.Examples.{key_b, key_a, key_ab, two_keys, context, applier}

abbrev put_op : Put
put_op = record {
  target = record { key = key_a; match_seq = some 1 };
  payload = record { value = 9 ∷ []; expire_at_ms = none; ttl_ms = none };
}

put_answer : TxnPutResponse
put_answer = record {
  key = key_a;
  prev_value = some (record { seq = 1; meta = none; bytes = 7 ∷ [] });
  current = some (record {
    seq = 3;
    meta = some (record { expire_at = none; proposed_at_ms = some 1000 });
    bytes = 9 ∷ [];
  });
}

execute_put_lem_example :
    let after = (execute_put memory put_op applier).1 in
    (found : Option (SeqV Bytes)) × (get_maybe_expired_kv memory put_op.target.key applier.sm
      ≡ ok found)
    × (get_maybe_expired_kv memory put_op.target.key after.sm
        ≡ ok (put_result memory memory_values memory_map put_op applier found))
    × (put_answer.key ≡ put_op.target.key)
    × (put_answer.prev_value ≡ option_map seqv_to_pb found)
    × (put_answer.current
        ≡ option_map seqv_to_pb (put_result memory memory_values memory_map put_op applier found))
unfolding execute_put applier put_answer put_upsert write_operation delete_if_expired
    resolve_meta_spec text_eq seqv_to_pb to_meta_spec with_meta with_seq update_kv
execute_put_lem_example =
    execute_put_lem memory memory_values memory_map put_op applier
      (execute_put memory put_op applier).1 put_answer refl

abbrev delete_op : Delete
delete_op = record { target = record { key = key_ab; match_seq = none } }

delete_answer : TxnDeleteResponse
delete_answer = record {
  key = key_ab;
  success = true;
  prev_value = some (record { seq = 2; meta = none; bytes = 5 ∷ [] });
}

execute_delete_lem_example :
    let after = (execute_delete memory delete_op applier).1 in
    (found : Option (SeqV Bytes)) × (get_maybe_expired_kv memory delete_op.target.key applier.sm
      ≡ ok found)
    × (get_maybe_expired_kv memory delete_op.target.key after.sm
        ≡ ok (if may_delete delete_op.target.match_seq (seq_of found) then none else found))
    × (delete_answer.key ≡ delete_op.target.key)
    × (delete_answer.prev_value ≡ option_map seqv_to_pb found)
    × (delete_answer.success
        ≡ (is_some found && may_delete delete_op.target.match_seq (seq_of found)))
unfolding execute_delete applier delete_answer delete_upsert write_operation delete_if_expired
    resolve_meta_spec text_eq seqv_to_pb delete_kv with_seq
execute_delete_lem_example =
    execute_delete_lem memory memory_values memory_map delete_op applier
      (execute_delete memory delete_op applier).1 delete_answer refl

-- "a" expires at 500.
expiring : Applier memory
unfolding memory
expiring = record {
  sm = record two_keys { index = (record { time_ms = 500; seq = 1 }, some key_a) ∷ [] };
  cmd_ctx = context;
  changes = [];
}

abbrev indexed_a : IoStream (ExpireKey × Text)
indexed_a = ok (record { time_ms = 500; seq = 1 }, key_a) ∷ []

clean_expired_kvs-Absent_example :
    All
      (λ (e, key).
        Absent memory memory_values memory_map (clean_expired_kvs memory 1000 expiring).1 key)
      (expired_before 1000 indexed_a)
unfolding clean_expired_kvs expiring list_expire_index write_operation delete_if_expired
    resolve_meta_spec text_eq delete_kv push_change
clean_expired_kvs-Absent_example =
    clean_expired_kvs-Absent memory memory_values memory_map 1000 expiring
      (clean_expired_kvs memory 1000 expiring).1 indexed_a refl refl (tt, tt) refl refl

-- The counter is "a".
abbrev sequential_op : PutSequential
sequential_op = record {
  prefix = key_b;
  sequence_key = key_a;
  payload = record { value = 9 ∷ []; expire_at_ms = none; ttl_ms = none };
}

sequential_answer : TxnPutResponse
unfolding build_key
sequential_answer = record {
  key = build_key key_b 7;
  prev_value = none;
  current = some (record {
    seq = 4;
    meta = some (record { expire_at = none; proposed_at_ms = some 1000 });
    bytes = 9 ∷ [];
  });
}

other_key : key_a ≢ sequential_answer.key
unfolding sequential_answer build_key
other_key e = let same : 97 ≡ 98 = ap first e in omega (arith, same)
  where
    first : Text → ℕ
    first [] = 0
    first (c ∷ cs) = c

execute_put_sequential_lem_example :
    let after = (execute_put_sequential memory sequential_op applier).1 in
    (found : Option (SeqV Bytes)) × (counter : Option (SeqV Bytes)) × (result : Option (SeqV Bytes))
    × (get_maybe_expired_kv memory sequential_op.sequence_key applier.sm ≡ ok found)
    × (get_maybe_expired_kv memory sequential_op.sequence_key after.sm ≡ ok counter)
    × (get_maybe_expired_kv memory sequential_answer.key after.sm ≡ ok result)
    × (sequential_answer.key ≡ build_key sequential_op.prefix (stored_u64 memory found))
    × (sequential_answer.current ≡ option_map seqv_to_pb result)
    × (stored_u64 memory counter ≡ min (stored_u64 memory found + 1) u64_max)
unfolding execute_put_sequential applier sequential_answer build_key write_operation
    delete_if_expired resolve_meta_spec text_eq seqv_to_pb to_meta_spec with_meta update_kv
    just_lookup increased saturating_add_signed new_fetch_response
execute_put_sequential_lem_example =
    execute_put_sequential_lem memory memory_values memory_map sequential_op applier
      (execute_put_sequential memory sequential_op applier).1 sequential_answer (omega arith)
      other_key refl
