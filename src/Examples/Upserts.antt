-- ===== src/Examples/Upserts.antt =====
-- Runs of upserts, counters and listings.
use databend_meta.Common.{
  ◌+◌, ◌%◌, ◌≡◌, refl, arith, Option, none, some, List, [], ◌∷◌, ◌++◌, length, Text, Bytes, Result,
  ok, Has, text_eq,
}
use databend_meta.Common.Int.{pos, u32_mod, saturating_add_signed}
use databend_meta.Types.SeqV.{SeqV, seq_of}
use databend_meta.Types.Upsert.{UpsertKv, update, exact, update_kv, delete_kv}
use databend_meta.Types.CmdContext.{resolve_meta_spec}
use databend_meta.KvTransaction.Operation.{FetchIncreaseU64}
use databend_meta.Keys.Order.{starts_with, is_text, text_leb, text_ltb}
use databend_meta.Keys.Prefix.{prefix_right_bound}
use databend_meta.Keys.Range.{in_range, last_not_max}
use databend_meta.StateMachine.Api.{ExpireKey, Event}
use databend_meta.StateMachine.Ext.{
  write_operation, delete_if_expired, get_maybe_expired_kv, list_kv,
}
use databend_meta.StateMachine.Ext.Upsert.{has_expired, meta_of, upserted}
use databend_meta.StateMachine.Ext.Listing.{list_kv_complete}
use databend_meta.StateMachine.Memory.{memory, lookup, scan}
use databend_meta.StateMachine.Memory.Lawful.{memory_values, memory_map, memory_range}
use databend_meta.Applier.Defs.{upsert_kv, push_change}
use databend_meta.Applier.Response.{FetchIncreaseU64Response, new_fetch_response}
use databend_meta.Applier.Execute.{execute_fetch_increase_u64, delete_listed, stored_u64, increased}
use databend_meta.Applier.Refine.{upsert_kv_refines}
use databend_meta.Applier.Increase.{execute_fetch_increase_u64_reads_back, next_value}
use databend_meta.Applier.Doubled.{doubled, Deleted, delete_listed-doubled}
use databend_meta.Examples.{key_a, key_ab, context, applier, key_a_bounded}

abbrev put_9 : UpsertKv
put_9 = record { key = key_a; seq = exact 1; value = update (9 ∷ []); value_meta = none }

abbrev old_a : Option (SeqV Bytes)
old_a = some (record { seq = 1; meta = none; value = 7 ∷ [] })

abbrev new_a : Option (SeqV Bytes)
new_a = some (record { seq = 3; meta = some (meta_of put_9 context); value = 9 ∷ [] })

upsert_kv_refines_example :
    let after = (upsert_kv memory put_9 applier).1 in
    let expected =
      upserted
        (memory.match_seq put_9.seq (seq_of old_a))
        (has_expired memory put_9 applier.cmd_ctx)
        put_9.value
        (meta_of put_9 applier.cmd_ctx)
        old_a
        (memory_map.last_seq applier.sm) in
    (get_maybe_expired_kv memory key_a applier.sm ≡ ok old_a)
    × (get_maybe_expired_kv memory key_a after.sm ≡ ok new_a)
    × (new_a ≡ expected.0)
    × (memory_map.last_seq after.sm ≡ expected.1)
unfolding upsert_kv applier write_operation delete_if_expired resolve_meta_spec text_eq
upsert_kv_refines_example =
    upsert_kv_refines memory memory_values memory_map put_9 applier
      (upsert_kv memory put_9 applier).1 old_a new_a refl

add_5 : FetchIncreaseU64
add_5 = record { target = record { key = key_a; match_seq = none }; delta = pos 5; floor = 10 }

-- 7 is raised to the floor 10, and then by 5.
increased_a : FetchIncreaseU64Response
increased_a = record { key = key_a; before_seq = 1; before = 7; after_seq = 3; after = 15 }

execute_fetch_increase_u64_reads_back_example :
    let after = (execute_fetch_increase_u64 memory add_5 applier).1 in
    (found : Option (SeqV Bytes)) × (found' : Option (SeqV Bytes)) × (get_maybe_expired_kv memory
        add_5.target.key applier.sm
      ≡ ok found)
    × (get_maybe_expired_kv memory add_5.target.key after.sm ≡ ok found')
    × (increased_a.before ≡ stored_u64 memory found)
    × (increased_a.before_seq ≡ seq_of found)
    × (increased_a.after ≡ stored_u64 memory found')
    × (increased_a.after_seq ≡ seq_of found')
    × (stored_u64 memory found' ≡ next_value memory memory_values memory_map add_5 found)
unfolding execute_fetch_increase_u64 applier add_5 increased_a write_operation delete_if_expired
    resolve_meta_spec text_eq update_kv increased saturating_add_signed new_fetch_response
execute_fetch_increase_u64_reads_back_example =
    execute_fetch_increase_u64_reads_back memory memory_values memory_map add_5 applier
      (execute_fetch_increase_u64 memory add_5 applier).1 increased_a (omega arith) (omega arith)
      refl

abbrev listed_a : List (Result (Text × SeqV Bytes))
listed_a =
    ok (key_a, record { seq = 1; meta = none; value = 7 ∷ [] })
    ∷ ok (key_ab, record { seq = 2; meta = none; value = 5 ∷ [] })
    ∷ []

list_kv_complete_example :
    Has (ok (key_ab, record { seq = 2; meta = none; value = 5 ∷ [] })) listed_a
unfolding list_kv applier is_text in_range text_leb text_ltb prefix_right_bound last_not_max text_eq
    lookup scan starts_with get_maybe_expired_kv
list_kv_complete_example =
    list_kv_complete memory memory_range key_a applier.sm listed_a key_ab
      (record { seq = 2; meta = none; value = 5 ∷ [] }) refl key_a_bounded refl refl refl refl refl

delete_listed-doubled_example :
    (es : List Event) × Deleted memory listed_a applier es
      (delete_listed memory listed_a 0 applier).1
    × ((delete_listed memory listed_a 0 applier).1.changes ≡ applier.changes ++ doubled es)
    × (2 ≡ (0 + length listed_a) % u32_mod)
unfolding delete_listed applier upsert_kv write_operation delete_if_expired resolve_meta_spec
    text_eq delete_kv push_change
delete_listed-doubled_example =
    delete_listed-doubled memory listed_a 0 2 applier (delete_listed memory listed_a 0 applier).1
      (omega arith) refl

abbrev indexed : List (Result (ExpireKey × Text))
indexed =
    ok (record { time_ms = 500; seq = 1 }, key_a)
    ∷ ok (record { time_ms = 1000; seq = 2 }, key_ab)
    ∷ []
