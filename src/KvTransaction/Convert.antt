-- ===== src/KvTransaction/Convert.antt =====
-- crates/server/types/src/kv_transaction/convert.rs
use databend_meta.Common.{List, [], ◌∷◌, ◌++◌, map, true, Option, none, some, if◌then◌else◌, Text}
use databend_meta.KvTransaction.Operation.{new_lookup, new_payload}
use databend_meta.KvTransaction.Defs
use databend_meta.KvTransaction.Defs.{
  Operand, CompareOperator, Condition, Predicate, Predicates, and_of, or_of, leaf, Operation,
  Branch, Transaction,
}
use databend_meta.KvTransaction.Build.Predicates.{always_true, is_always_true}
use databend_meta.KvTransaction.Build.Operations
use databend_meta.KvTransaction.Proto
use databend_meta.KvTransaction.Proto.{
  ConditionResult, CombiningOperator, and_, or_, result_code, operator_code, ProtoEnums, Target,
  TxnCondition, BooleanExpression, Expressions, expression, TxnOp, ConditionalOperation,
  KvTransactionRequest, TxnRequest, Request,
}

-- `to_condition_result`
unfoldable pub to_condition_result : CompareOperator → ConditionResult
to_condition_result Defs.eq = Proto.eq
to_condition_result Defs.ne = Proto.ne
to_condition_result Defs.lt = Proto.lt
to_condition_result Defs.le = Proto.le
to_condition_result Defs.gt = Proto.gt
to_condition_result Defs.ge = Proto.ge

-- an unknown number is read as `Eq`
unfoldable pub from_condition_result : Option ConditionResult → CompareOperator
from_condition_result (some Proto.eq) = Defs.eq
from_condition_result (some Proto.gt) = Defs.gt
from_condition_result (some Proto.ge) = Defs.ge
from_condition_result (some Proto.lt) = Defs.lt
from_condition_result (some Proto.le) = Defs.le
from_condition_result (some Proto.ne) = Defs.ne
from_condition_result none = Defs.eq

unfoldable pub operand_to_target : Operand → Target
operand_to_target (Defs.seq s) = Proto.seq s
operand_to_target (Defs.value v) = Proto.value v
operand_to_target (Defs.keys_with_prefix n) = Proto.keys_with_prefix n

unfoldable pub target_to_operand : Target → Operand
target_to_operand (Proto.seq s) = Defs.seq s
target_to_operand (Proto.value v) = Defs.value v
target_to_operand (Proto.keys_with_prefix n) = Defs.keys_with_prefix n

-- `From<Condition> for pb::TxnCondition`
unfoldable pub condition_to_pb : Condition → TxnCondition
unfolding operand_to_target to_condition_result
condition_to_pb c = record {
  key = c.key;
  target = some (operand_to_target c.target);
  expected = result_code (to_condition_result c.op);
}

-- `From<Operation> for pb::TxnOp`
unfoldable pub request_of : Operation → Request
request_of (Defs.get g) = Proto.get (record { key = g.key })
request_of (Defs.put p) = Proto.put (record {
  key = p.target.key;
  value = p.payload.value;
  prev_value = true;
  expire_at = p.payload.expire_at_ms;
  ttl_ms = p.payload.ttl_ms;
  match_seq = p.target.match_seq;
})
request_of (Defs.delete d) =
    Proto.delete (record { key = d.target.key; prev_value = true; match_seq = d.target.match_seq })
request_of (Defs.delete_by_prefix d) = Proto.delete_by_prefix (record { prefix = d.prefix })
request_of (Defs.fetch_increase_u64 f) = Proto.fetch_increase_u64 (record {
  key = f.target.key;
  match_seq = f.target.match_seq;
  delta = f.delta;
  max_value = f.floor;
})
request_of (Defs.put_sequential p) = Proto.put_sequential (record {
  prefix = p.prefix;
  sequence_key = p.sequence_key;
  value = p.payload.value;
  expires_at_ms = p.payload.expire_at_ms;
  ttl_ms = p.payload.ttl_ms;
})

unfoldable pub operation_to_pb : Operation → TxnOp
unfolding request_of
operation_to_pb op = record { request = some (request_of op) }

unfoldable pub operation_of : Request → Operation
unfolding Operations.get Operations.delete_by_prefix new_lookup new_payload
operation_of (Proto.get g) = Operations.get g.key
operation_of (Proto.put p) = Defs.put (record {
  target = new_lookup p.key p.match_seq;
  payload = new_payload p.value p.expire_at p.ttl_ms;
})
operation_of (Proto.delete d) = Defs.delete (record { target = new_lookup d.key d.match_seq })
operation_of (Proto.delete_by_prefix d) = Operations.delete_by_prefix d.prefix
operation_of (Proto.fetch_increase_u64 f) =
    Defs.fetch_increase_u64
      (record { target = new_lookup f.key f.match_seq; delta = f.delta; floor = f.max_value })
operation_of (Proto.put_sequential p) = Defs.put_sequential (record {
  prefix = p.prefix;
  sequence_key = p.sequence_key;
  payload = new_payload p.value p.expires_at_ms p.ttl_ms;
})

-- a missing request is read as a get of the empty key
abbrev operation_or_get : Option Request → Operation
unfolding operation_of
operation_or_get none = Operations.get []
operation_or_get (some r) = operation_of r

-- `From<pb::TxnOp> for Operation`
unfoldable pub operation_from_pb : TxnOp → Operation
unfolding operation_or_get
operation_from_pb op = operation_or_get op.request

-- `From<Predicate> for pb::BooleanExpression`, and `split_children`, which keeps the leaves and the
-- other children apart, each in their order.
unfoldable mutual
  unfolding condition_to_pb

  pub predicate_to_pb : Predicate → BooleanExpression
  predicate_to_pb (and_of ps) =
      let (subs, conditions) = split_children ps in expression (operator_code and_) subs conditions
  predicate_to_pb (or_of ps) =
      let (subs, conditions) = split_children ps in expression (operator_code or_) subs conditions
  predicate_to_pb (leaf c) = expression (operator_code and_) Proto.nil (condition_to_pb c ∷ [])

  pub split_children : Predicates → Expressions × List TxnCondition
  split_children Defs.nil = (Proto.nil, [])
  split_children (Defs.cons (leaf c) ps) =
      let (subs, conditions) = split_children ps in (subs, condition_to_pb c ∷ conditions)
  split_children (Defs.cons p ps) =
      let (subs, conditions) = split_children ps in
      (Proto.cons (predicate_to_pb p) subs, conditions)

-- `From<Branch> for pb::ConditionalOperation`
unfoldable pub branch_to_pb : Branch → ConditionalOperation
unfolding is_always_true predicate_to_pb operation_to_pb
branch_to_pb b = record {
  predicate = if is_always_true b.predicate then none else some (predicate_to_pb b.predicate);
  operations = map operation_to_pb b.operations;
}

-- `From<Transaction> for pb::KvTransactionRequest`
unfoldable pub transaction_to_pb : Transaction → KvTransactionRequest
unfolding branch_to_pb
transaction_to_pb t = record { branches = map branch_to_pb t.branches }

module _ (e : ProtoEnums) where
  abbrev condition_from : Text → Option Target → CompareOperator → Condition
  unfolding target_to_operand
  condition_from key (some t) op = record { key = key; target = target_to_operand t; op = op }
  condition_from key none op = record { key = key; target = Defs.seq 0; op = Defs.lt }

  -- `From<pb::TxnCondition> for Condition`: without a target the condition never holds.
  unfoldable pub condition_from_pb : TxnCondition → Condition
  unfolding condition_from from_condition_result
  condition_from_pb c =
      condition_from c.key c.target (from_condition_result (e.condition_result c.expected))

  unfoldable pub leaves : List TxnCondition → Predicates
  unfolding condition_from_pb
  leaves [] = Defs.nil
  leaves (c ∷ cs) = Defs.cons (leaf (condition_from_pb c)) (leaves cs)

  -- `children.extend(...)`
  unfoldable pub extend : Predicates → Predicates → Predicates
  extend Defs.nil qs = qs
  extend (Defs.cons p ps) qs = Defs.cons p (extend ps qs)

  abbrev combined : CombiningOperator → Predicates → Predicate
  combined and_ ps = and_of ps
  combined or_ ps = or_of ps

  -- One child stands for itself, under either operator.
  unfoldable pub combine : CombiningOperator → Predicates → Predicate
  combine op (Defs.cons p Defs.nil) = p
  combine op ps = combined op ps

  -- `From<pb::BooleanExpression> for Predicate`
  unfoldable mutual
    unfolding leaves extend combine

    pub predicate_from_pb : BooleanExpression → Predicate
    predicate_from_pb (expression op subs conditions) =
        combine (e.operator op) (extend (predicates_from_pb subs) (leaves conditions))

    pub predicates_from_pb : Expressions → Predicates
    predicates_from_pb Proto.nil = Defs.nil
    predicates_from_pb (Proto.cons x xs) = Defs.cons (predicate_from_pb x) (predicates_from_pb xs)

  abbrev predicate_or_true : Option BooleanExpression → Predicate
  unfolding predicate_from_pb always_true
  predicate_or_true none = always_true
  predicate_or_true (some x) = predicate_from_pb x

  -- `From<pb::ConditionalOperation> for Branch`
  unfoldable pub branch_from_pb : ConditionalOperation → Branch
  unfolding predicate_or_true operation_from_pb
  branch_from_pb co = record {
    predicate = predicate_or_true co.predicate;
    operations = map operation_from_pb co.operations;
  }

  -- `From<pb::KvTransactionRequest> for Transaction`
  unfoldable pub transaction_from_pb : KvTransactionRequest → Transaction
  unfolding branch_from_pb
  transaction_from_pb req = record { branches = map branch_from_pb req.branches }

  abbrev pub else_branch : List TxnOp → List Branch
  else_branch [] = []
  else_branch ops = record { predicate = always_true; operations = map operation_from_pb ops } ∷ []

  -- `From<&pb::TxnRequest> for Transaction`
  unfoldable pub transaction_from_txn_request : TxnRequest → Transaction
  unfolding branch_from_pb leaves
  transaction_from_txn_request req = record {
    branches =
        map branch_from_pb req.operations
        ++ (record {
          predicate = and_of (leaves req.condition);
          operations = map operation_from_pb req.if_then;
        }
            ∷ else_branch req.else_then);
  }
