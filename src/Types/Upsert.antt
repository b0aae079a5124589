-- ===== src/Types/Upsert.antt =====
-- crates/server/base/src/upsert_kv.rs and operation.rs.
use databend_meta.Common.{ℕ, Option, none, some, Text, Bytes}
use databend_meta.Types.Interval.{Duration}
use databend_meta.Types.MetaSpec
use databend_meta.Types.MetaSpec.{MetaSpec}

-- `MatchSeq` of the crate map-api, by the constructors that the repository uses.
pub data MatchSeq : Type 0 where
  any : MatchSeq
  exact ge : ℕ → MatchSeq

pub data Operation (A : Type 0) : Type 0 where
  update : A → Operation A
  delete : Operation A
  as_is : Operation A

pub record UpsertKv : Type 0 where
  pub key : Text
  pub seq : MatchSeq
  pub value : Operation Bytes
  pub value_meta : Option MetaSpec

unfoldable pub new : Text → MatchSeq → Operation Bytes → Option MetaSpec → UpsertKv
new key seq value value_meta = record {
  key = key;
  seq = seq;
  value = value;
  value_meta = value_meta;
}

unfoldable pub insert_kv : Text → Bytes → UpsertKv
insert_kv key value = record { key = key; seq = exact 0; value = update value; value_meta = none }

unfoldable pub update_kv : Text → Bytes → UpsertKv
update_kv key value = record { key = key; seq = ge 0; value = update value; value_meta = none }

unfoldable pub delete_kv : Text → UpsertKv
delete_kv key = record { key = key; seq = ge 1; value = delete; value_meta = none }

-- `With<MatchSeq>`
unfoldable pub with_seq : UpsertKv → MatchSeq → UpsertKv
with_seq u seq = record u { seq = seq }

-- `With<MetaSpec>`
unfoldable pub with_meta : UpsertKv → MetaSpec → UpsertKv
with_meta u meta = record u { value_meta = some meta }

unfoldable pub with_expire_sec : UpsertKv → ℕ → UpsertKv
unfolding with_meta MetaSpec.new_expire
with_expire_sec u expire_at_sec = with_meta u (MetaSpec.new_expire expire_at_sec)

unfoldable pub with_ttl : UpsertKv → Duration → UpsertKv
unfolding with_meta MetaSpec.new_ttl
with_ttl u ttl = with_meta u (MetaSpec.new_ttl ttl)
