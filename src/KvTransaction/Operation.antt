-- ===== src/KvTransaction/Operation.antt =====
-- crates/server/types/src/kv_transaction/operation.rs
use databend_meta.Common.{ℕ, Option, none, option_map, Text, Bytes}
use databend_meta.Common.Int.{ℤ}
use databend_meta.Types.Interval
use databend_meta.Types.MetaSpec
use databend_meta.Types.MetaSpec.{MetaSpec}

pub record Payload : Type 0 where
  pub value : Bytes
  pub expire_at_ms : Option ℕ
  pub ttl_ms : Option ℕ

unfoldable pub new_payload : Bytes → Option ℕ → Option ℕ → Payload
new_payload value expire_at_ms ttl_ms = record {
  value = value;
  expire_at_ms = expire_at_ms;
  ttl_ms = ttl_ms;
}

unfoldable pub just_payload : Bytes → Payload
unfolding new_payload
just_payload value = new_payload value none none

unfoldable pub to_meta_spec : Payload → MetaSpec
unfolding MetaSpec.new Interval.from_millis
to_meta_spec p = MetaSpec.new p.expire_at_ms (option_map Interval.from_millis p.ttl_ms)

pub record KeyLookup : Type 0 where
  pub key : Text
  pub match_seq : Option ℕ

unfoldable pub new_lookup : Text → Option ℕ → KeyLookup
new_lookup key match_seq = record { key = key; match_seq = match_seq }

unfoldable pub just_lookup : Text → KeyLookup
unfolding new_lookup
just_lookup key = new_lookup key none

pub record Get : Type 0 where
  pub key : Text

-- `key()` and `match_seq()` of the targeted operations are the fields of `target`.
pub record Put : Type 0 where
  pub target : KeyLookup
  pub payload : Payload

pub record Delete : Type 0 where
  pub target : KeyLookup

pub record DeleteByPrefix : Type 0 where
  pub prefix : Text

pub record FetchIncreaseU64 : Type 0 where
  pub target : KeyLookup
  pub delta : ℤ
  pub floor : ℕ

pub record PutSequential : Type 0 where
  pub prefix : Text
  pub sequence_key : Text
  pub payload : Payload
