-- ===== src/Types/SeqV.antt =====
-- The versioned values `SeqV` with their `KVMeta`, by the fields that the repository reads and
-- writes (both are declared in the crate state-machine-api); their protobuf images of
-- crates/common/proto/src/proto_ext/seq_v_ext.rs; crates/server/base/src/normalize_meta.rs.
use databend_meta.Common.{
  ℕ, ◌≡◌, Bool, true, false, ◌&&◌, Option, none, some, List, map, arith, Bytes, ◌==◌, text_eq,
  option_eq, option_map, if◌then◌else◌, ◌-◌, ◌/◌, ◌%◌, leb, ltb,
}
use databend_meta.Common.Int.{u64_mod}
use databend_meta.Types.Interval.{Duration}
use databend_meta.Types.MetaSpec.{flexible_timestamp_to_duration}

pub record KvMeta : Type 0 where
  pub expire_at : Option ℕ
  pub proposed_at_ms : Option ℕ

pub record SeqV (A : Type 0) : Type 0 where
  pub seq : ℕ
  pub meta : Option KvMeta
  pub value : A

-- `Option<SeqV>::seq()`: 0 for no value.
abbrev pub seq_of : {A : Type 0} → Option (SeqV A) → ℕ
seq_of none = 0
seq_of (some v) = v.seq

abbrev pub meta_eq : KvMeta → KvMeta → Bool
meta_eq a b =
    option_eq (λ x y. x == y) a.expire_at b.expire_at
    && option_eq (λ x y. x == y) a.proposed_at_ms b.proposed_at_ms

-- `PartialEq` of `SeqV<Vec<u8>>`, which is derived.
unfoldable pub seqv_eq : SeqV Bytes → SeqV Bytes → Bool
seqv_eq a b = a.seq == b.seq && option_eq meta_eq a.meta b.meta && text_eq a.value b.value

-- `KVMeta::default()`
abbrev pub default_meta : KvMeta
default_meta = record { expire_at = none; proposed_at_ms = none }

abbrev erase_proposed_at : KvMeta → KvMeta
erase_proposed_at m = record m { proposed_at_ms = none }

module _ {A : Type 0} where
  -- `NormalizeMeta::normalize` for `SeqV<T>`
  unfoldable pub normalize : SeqV A → SeqV A
  normalize v = if option_eq meta_eq v.meta (some default_meta) then record v { meta = none } else v

  -- `NormalizeMeta::without_proposed_at` for `SeqV<T>`
  unfoldable pub without_proposed_at : SeqV A → SeqV A
  unfolding normalize
  without_proposed_at v = normalize (record v { meta = option_map erase_proposed_at v.meta })

-- `NormalizeMeta` for `Option<SeqV<T>>` and `Vec<SeqV<T>>`
unfoldable pub normalize_option : {A : Type 0} → Option (SeqV A) → Option (SeqV A)
unfolding normalize
normalize_option v = option_map normalize v

unfoldable pub without_proposed_at_option : {A : Type 0} → Option (SeqV A) → Option (SeqV A)
unfolding without_proposed_at
without_proposed_at_option v = option_map without_proposed_at v

unfoldable pub normalize_vec : {A : Type 0} → List (SeqV A) → List (SeqV A)
unfolding normalize
normalize_vec vs = map normalize vs

unfoldable pub without_proposed_at_vec : {A : Type 0} → List (SeqV A) → List (SeqV A)
unfolding without_proposed_at
without_proposed_at_vec vs = map without_proposed_at vs

-- `pb::KvMeta` and `pb::SeqV`, messages of meta.proto
pub record PbKvMeta : Type 0 where
  pub expire_at : Option ℕ
  pub proposed_at_ms : Option ℕ

pub record PbSeqV : Type 0 where
  pub seq : ℕ
  pub meta : Option PbKvMeta
  pub bytes : Bytes

unfoldable pub meta_to_pb : KvMeta → PbKvMeta
meta_to_pb m = record { expire_at = m.expire_at; proposed_at_ms = m.proposed_at_ms }

unfoldable pub meta_from_pb : PbKvMeta → KvMeta
meta_from_pb m = record { expire_at = m.expire_at; proposed_at_ms = m.proposed_at_ms }

unfoldable pub seqv_to_pb : SeqV Bytes → PbSeqV
unfolding meta_to_pb
seqv_to_pb v = record { seq = v.seq; meta = option_map meta_to_pb v.meta; bytes = v.value }

unfoldable pub seqv_from_pb : PbSeqV → SeqV Bytes
unfolding meta_from_pb
seqv_from_pb v = record { seq = v.seq; meta = option_map meta_from_pb v.meta; value = v.bytes }

-- `Duration::as_micros() as u64`
abbrev as_micros_u64 : Duration → ℕ
as_micros_u64 d = d.nanos / 1000 % u64_mod

abbrev abs_diff : ℕ → ℕ → ℕ
abs_diff a b = if ltb a b then b - a else a - b

abbrev close_expire : Option ℕ → Option ℕ → Duration → Bool
unfolding flexible_timestamp_to_duration
close_expire (some x) (some y) tolerance =
    leb
      (abs_diff (as_micros_u64 (flexible_timestamp_to_duration x))
        (as_micros_u64 (flexible_timestamp_to_duration y)))
      (as_micros_u64 tolerance)
close_expire none none tolerance = true
close_expire _ _ tolerance = false

-- `pb::KvMeta::close_to`
unfoldable pub close_to : PbKvMeta → PbKvMeta → Duration → Bool
unfolding close_expire
close_to a b tolerance = close_expire a.expire_at b.expire_at tolerance

-- The wire form of a value reads back as that value.
pub seqv_from_pb-seqv_to_pb : (v : SeqV Bytes) → seqv_from_pb (seqv_to_pb v) ≡ v
unfolding seqv_from_pb seqv_to_pb
seqv_from_pb-seqv_to_pb v = ground arith
