-- ===== src/KvTransaction/Build/Operations.antt =====
-- `impl Operation` of crates/server/types/src/kv_transaction/mod.rs. `none` is a panic: the source
-- calls `unreachable!` for an operation without the field.
use databend_meta.Common.{ℕ, Option, none, some, Text, Bytes}
use databend_meta.Common.Int.{ℤ}
use databend_meta.KvTransaction.Operation.{just_lookup, just_payload}
use databend_meta.KvTransaction.Defs
use databend_meta.KvTransaction.Defs.{Operation}

unfoldable pub get : Text → Operation
get key = Defs.get (record { key = key })

unfoldable pub put : Text → Bytes → Operation
unfolding just_lookup just_payload
put key value = Defs.put (record { target = just_lookup key; payload = just_payload value })

unfoldable pub delete : Text → Operation
unfolding just_lookup
delete key = Defs.delete (record { target = just_lookup key })

unfoldable pub put_sequential : Text → Text → Bytes → Operation
unfolding just_payload
put_sequential prefix sequence_key value =
    Defs.put_sequential
      (record { prefix = prefix; sequence_key = sequence_key; payload = just_payload value })

unfoldable pub fetch_increase_u64 : Text → ℤ → Operation
unfolding just_lookup
fetch_increase_u64 key delta =
    Defs.fetch_increase_u64 (record { target = just_lookup key; delta = delta; floor = 0 })

unfoldable pub delete_by_prefix : Text → Operation
delete_by_prefix prefix = Defs.delete_by_prefix (record { prefix = prefix })

unfoldable pub expire_at_ms : Operation → ℕ → Option Operation
expire_at_ms (Defs.put p) ms =
    some (Defs.put (record p { payload = record (p.payload) { expire_at_ms = some ms } }))
expire_at_ms (Defs.put_sequential p) ms =
    some
      (Defs.put_sequential (record p { payload = record (p.payload) { expire_at_ms = some ms } }))
expire_at_ms _ ms = none

unfoldable pub ttl_ms : Operation → ℕ → Option Operation
ttl_ms (Defs.put p) ms =
    some (Defs.put (record p { payload = record (p.payload) { ttl_ms = some ms } }))
ttl_ms (Defs.put_sequential p) ms =
    some (Defs.put_sequential (record p { payload = record (p.payload) { ttl_ms = some ms } }))
ttl_ms _ ms = none

unfoldable pub match_seq : Operation → ℕ → Option Operation
match_seq (Defs.put p) n =
    some (Defs.put (record p { target = record (p.target) { match_seq = some n } }))
match_seq (Defs.delete d) n =
    some (Defs.delete (record d { target = record (d.target) { match_seq = some n } }))
match_seq (Defs.fetch_increase_u64 f) n =
    some (Defs.fetch_increase_u64 (record f { target = record (f.target) { match_seq = some n } }))
match_seq _ n = none
