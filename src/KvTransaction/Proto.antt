-- ===== src/KvTransaction/Proto.antt =====
-- The messages of crates/common/proto/proto/meta.proto and request.proto that carry a transaction, and what is
-- relied on of the code that prost and num-derive generate for their enums.
use databend_meta.Common.{ℕ, ◌≡◌, List, Option, some, Bool, Text, Bytes}
use databend_meta.Common.Int.{ℤ, pos}

pub data ConditionResult : Type 0 where
  eq gt ge lt le ne : ConditionResult

pub data CombiningOperator : Type 0 where
  and_ or_ : CombiningOperator

-- `as i32`: the numbers that meta.proto gives the members.
abbrev pub result_code : ConditionResult → ℤ
result_code eq = pos 0
result_code gt = pos 1
result_code ge = pos 2
result_code lt = pos 3
result_code le = pos 4
result_code ne = pos 5

abbrev pub operator_code : CombiningOperator → ℤ
operator_code and_ = pos 0
operator_code or_ = pos 1

-- The generated accessors: `ConditionResult::from_i32` and `BooleanExpression::operator`.
pub record ProtoEnums : Type 0 where
  pub condition_result : ℤ → Option ConditionResult
  pub operator : ℤ → CombiningOperator

-- A member's own number is read as that member.
pub record ReadsMembers (e : ProtoEnums) : Type 0 where
  pub condition_result_code : (r : ConditionResult) → e.condition_result (result_code r) ≡ some r
  pub operator_code_lem : (o : CombiningOperator) → e.operator (operator_code o) ≡ o

pub data Target : Type 0 where
  value : Bytes → Target
  seq : ℕ → Target
  keys_with_prefix : ℕ → Target

pub record TxnCondition : Type 0 where
  pub key : Text
  pub target : Option Target
  pub expected : ℤ

-- `message BooleanExpression`, with its repeated field as the second type of the block.
mutual
  pub data BooleanExpression : Type 0 where
    expression : ℤ → Expressions → List TxnCondition → BooleanExpression

  pub data Expressions : Type 0 where
    nil : Expressions
    cons : BooleanExpression → Expressions → Expressions

pub record TxnGetRequest : Type 0 where
  pub key : Text

pub record TxnPutRequest : Type 0 where
  pub key : Text
  pub value : Bytes
  pub prev_value : Bool
  pub expire_at : Option ℕ
  pub ttl_ms : Option ℕ
  pub match_seq : Option ℕ

pub record TxnDeleteRequest : Type 0 where
  pub key : Text
  pub prev_value : Bool
  pub match_seq : Option ℕ

pub record TxnDeleteByPrefixRequest : Type 0 where
  pub prefix : Text

pub record FetchIncreaseU64 : Type 0 where
  pub key : Text
  pub match_seq : Option ℕ
  pub delta : ℤ
  pub max_value : ℕ

pub record PutSequential : Type 0 where
  pub prefix : Text
  pub sequence_key : Text
  pub value : Bytes
  pub expires_at_ms : Option ℕ
  pub ttl_ms : Option ℕ

pub data Request : Type 0 where
  get : TxnGetRequest → Request
  put : TxnPutRequest → Request
  delete : TxnDeleteRequest → Request
  delete_by_prefix : TxnDeleteByPrefixRequest → Request
  fetch_increase_u64 : FetchIncreaseU64 → Request
  put_sequential : PutSequential → Request

pub record TxnOp : Type 0 where
  pub request : Option Request

pub record ConditionalOperation : Type 0 where
  pub predicate : Option BooleanExpression
  pub operations : List TxnOp

pub record KvTransactionRequest : Type 0 where
  pub branches : List ConditionalOperation

pub record TxnRequest : Type 0 where
  pub operations : List ConditionalOperation
  pub condition : List TxnCondition
  pub if_then : List TxnOp
  pub else_then : List TxnOp
