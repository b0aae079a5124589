-- ===== src/KvTransaction/Defs.antt =====
-- crates/server/types/src/kv_transaction/mod.rs, the types.
use databend_meta.Common.{ℕ, List, Text, Bytes}
use databend_meta.KvTransaction.Operation.{
  Get, Put, Delete, DeleteByPrefix, FetchIncreaseU64, PutSequential,
}

pub data Operand : Type 0 where
  seq : ℕ → Operand
  value : Bytes → Operand
  keys_with_prefix : ℕ → Operand

pub data CompareOperator : Type 0 where
  eq ne lt le gt ge : CompareOperator

pub record Condition : Type 0 where
  pub key : Text
  pub target : Operand
  pub op : CompareOperator

-- `Vec<Predicate>` is the second type of the block.
mutual
  pub data Predicate : Type 0 where
    and_of : Predicates → Predicate
    or_of : Predicates → Predicate
    leaf : Condition → Predicate

  pub data Predicates : Type 0 where
    nil : Predicates
    cons : Predicate → Predicates → Predicates

pub data Operation : Type 0 where
  get : Get → Operation
  put : Put → Operation
  delete : Delete → Operation
  delete_by_prefix : DeleteByPrefix → Operation
  fetch_increase_u64 : FetchIncreaseU64 → Operation
  put_sequential : PutSequential → Operation

pub record Branch : Type 0 where
  pub predicate : Predicate
  pub operations : List Operation

pub record Transaction : Type 0 where
  pub branches : List Branch
