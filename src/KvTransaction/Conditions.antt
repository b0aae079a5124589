-- ===== src/KvTransaction/Conditions.antt =====
-- The parts of a transaction that the wire form keeps exactly: conditions and operations.
use databend_meta.Common.{◌≡◌, refl, List, [], ◌∷◌, map, some, arith}
use databend_meta.KvTransaction.Defs
use databend_meta.KvTransaction.Defs.{Condition, CompareOperator, Operand, Operation, leaf}
use databend_meta.KvTransaction.Proto.{ProtoEnums, ReadsMembers}
use databend_meta.KvTransaction.Convert.{
  to_condition_result, from_condition_result, operand_to_target, target_to_operand, condition_to_pb,
  condition_from_pb, operation_to_pb, operation_from_pb,
}

from_condition_result-to_condition_result :
    (op : CompareOperator) → from_condition_result (some (to_condition_result op)) ≡ op
unfolding from_condition_result to_condition_result
from_condition_result-to_condition_result op = ground arith

target_to_operand-operand_to_target : (t : Operand) → target_to_operand (operand_to_target t) ≡ t
unfolding target_to_operand operand_to_target
target_to_operand-operand_to_target t = ground arith

module _ (e : ProtoEnums) (h : ReadsMembers e) where
  pub condition_from_pb-condition_to_pb :
      (c : Condition) → condition_from_pb e (condition_to_pb c) ≡ c
  unfolding condition_from_pb condition_to_pb
  condition_from_pb-condition_to_pb c = ground (
    arith,
    h.condition_result_code (to_condition_result c.op),
    from_condition_result-to_condition_result c.op,
    target_to_operand-operand_to_target c.target,
  )

-- An operation sent over the wire is read back as the same operation, in each of its six forms and
-- with every field (key, value, expiration, guard, delta and floor).
pub operation_from_pb-operation_to_pb :
    (op : Operation) → operation_from_pb (operation_to_pb op) ≡ op
unfolding operation_from_pb operation_to_pb
operation_from_pb-operation_to_pb (Defs.get g) = refl
operation_from_pb-operation_to_pb (Defs.put p) = refl
operation_from_pb-operation_to_pb (Defs.delete d) = refl
operation_from_pb-operation_to_pb (Defs.delete_by_prefix d) = refl
operation_from_pb-operation_to_pb (Defs.fetch_increase_u64 f) = refl
operation_from_pb-operation_to_pb (Defs.put_sequential p) = refl

pub map-operations : (ops : List Operation) → map operation_from_pb (map operation_to_pb ops) ≡ ops
map-operations [] = refl
map-operations (op ∷ ops) = cc (operation_from_pb-operation_to_pb op, map-operations ops)
