-- ===== src/Examples.antt =====
-- Data for the tests: a state machine in memory with two live keys and a node, and an applier of it.
mod Keys
mod Upserts
mod Reads
mod Transactions
mod LogEntry
mod Entries
mod Types
mod Answers
mod Tables
mod LeveledStore
mod Levels
mod OnDisk
mod Client
mod Service
mod Snapshots
mod Leader
mod Versions
use databend_meta.Keys.Range.{last_not_max, before_surrogates}
use databend_meta.Common.{
  ◌≡◌, ◌≢◌, refl, ap, arith, unwrap_or, ◌==◌, if◌then◌else◌, ℕ, Bool, true, Option, none, some,
  List, [], ◌∷◌, Text,
}
use databend_meta.Types.Interval.{Duration}
use databend_meta.Types.SysData.{SysData, LogId}
use databend_meta.Types.Node.{Node}
use databend_meta.Types.Time.{Time}
use databend_meta.Types.CmdContext.{CmdContext}
use databend_meta.StateMachine.Api.{StateMachineApi, MetaValue}
use databend_meta.StateMachine.Memory.{Memory, Entry, memory}
use databend_meta.Applier.Defs.{Applier}
use databend_meta.Common.Int.{ℤ, pos, negsuc}
use databend_meta.KvTransaction.Proto
use databend_meta.KvTransaction.Proto.{
  ProtoEnums, ReadsMembers, result_code, operator_code, ConditionResult, CombiningOperator,
}

-- "a", "ab" and "b"
abbrev pub key_a : Text
key_a = 97 ∷ []

abbrev pub key_ab : Text
key_ab = 97 ∷ 98 ∷ []

abbrev pub key_b : Text
key_b = 98 ∷ []

abbrev pub log_id : ℕ → LogId
log_id i = record { term = 1; node_id = 1; index = i }

abbrev pub node_x : Node
node_x = record {
  name = 120 ∷ [];
  endpoint = record { addr = 120 ∷ []; port = 9191 };
  grpc_api_addr = none;
  grpc_api_advertise_address = none;
}

abbrev pub sys_data : SysData
sys_data = record {
  last_applied = some (log_id 4);
  last_membership = record { log_id = none; membership = record { configs = []; nodes = [] } };
  nodes = (1, node_x) ∷ [];
  sequence = 0;
  data_seq = none;
  key_counts = [];
  sm_features = [];
}

-- "a" holds the number 7 and "ab" the byte 5.
abbrev pub two_keys : Memory
two_keys = record {
  entries =
      (key_a, record { seq = 1; content = some (none, 7 ∷ []) })
      ∷ (key_ab, record { seq = 2; content = some (none, 5 ∷ []) })
      ∷ [];
  index = [];
  last_seq = 2;
  sys_data = sys_data;
  cleanup_start = record { nanos = 0 };
  published = [];
}

abbrev pub context : CmdContext
context = record { time = record { time = record { millis = 1000 } }; log_id = log_id 5 }

unfoldable pub applier : Applier memory
unfolding memory
applier = record { sm = two_keys; cmd_ctx = context; changes = [] }

unfoldable pub mark : ℕ → Option MetaValue → memory.Marked
unfolding memory
mark seq content = record { seq = seq; content = content }

-- "a" does not end before the surrogates.
pub key_a_bounded : last_not_max key_a ≢ some before_surrogates
unfolding last_not_max
key_a_bounded e =
    let same : 97 ≡ before_surrogates = ap (λ o. unwrap_or o 0) e in omega (arith, same)

abbrev member : ℕ → Option ConditionResult
member n =
    if n == 0
    then some Proto.eq
    else if n == 1
    then some Proto.gt
    else if n == 2
    then some Proto.ge
    else if n == 3
    then some Proto.lt
    else if n == 4
    then some Proto.le
    else if n == 5
    then some Proto.ne
    else none

abbrev read_result : ℤ → Option ConditionResult
read_result (pos n) = member n
read_result (negsuc n) = none

abbrev read_operator : ℤ → CombiningOperator
read_operator (pos n) = if n == 1 then Proto.or_ else Proto.and_
read_operator (negsuc n) = Proto.and_

-- A number that no member has is none, or the first operator.
pub enums : ProtoEnums
enums = record { condition_result = λ c. read_result c; operator = λ c. read_operator c }

result_read : (r : ConditionResult) → read_result (result_code r) ≡ some r
result_read Proto.eq = refl
result_read Proto.gt = refl
result_read Proto.ge = refl
result_read Proto.lt = refl
result_read Proto.le = refl
result_read Proto.ne = refl

operator_read : (o : CombiningOperator) → read_operator (operator_code o) ≡ o
operator_read Proto.and_ = refl
operator_read Proto.or_ = refl

pub enums_lawful : ReadsMembers enums
unfolding enums
enums_lawful = record { condition_result_code = result_read; operator_code_lem = operator_read }
