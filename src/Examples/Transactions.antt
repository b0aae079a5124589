-- ===== src/Examples/Transactions.antt =====
-- Transactions: the branch that runs, and the forms they are sent in.
use databend_meta.Common.{◌≡◌, some, [], ◌∷◌}
use databend_meta.Common.Int.{pos}
use databend_meta.KvTransaction.Defs
use databend_meta.KvTransaction.Defs.{
  Condition, Operand, CompareOperator, Operation, Branch, Transaction,
}
use databend_meta.KvTransaction.Meaning.{select}
use databend_meta.KvTransaction.Proto
use databend_meta.KvTransaction.Proto.{TxnRequest}
use databend_meta.KvTransaction.Convert.{transaction_from_pb, transaction_to_pb}
use databend_meta.KvTransaction.RoundTrip.{select-transaction_from_pb}
use databend_meta.KvTransaction.Legacy.{legacy_choice}
use databend_meta.StateMachine.Memory.{memory}
use databend_meta.Applier.Transaction.{apply_kv_transaction}
use databend_meta.Applier.Select.{performed, apply_kv_transaction-select}
use databend_meta.Applier.Defs.{◌>>=◌, pure}
use databend_meta.Applier.Response
use databend_meta.Applier.Command
use databend_meta.Applier.Command.{apply_cmd}
use databend_meta.Applier.Requests.{apply_cmd-legacy_choice}
use databend_meta.Examples.{key_a, key_ab, key_b, applier, enums, enums_lawful}
use databend_meta.Examples.Reads.{truth, truth_lem}

-- "b" is absent, so the second branch reads "ab".
abbrev two_branches : Transaction
two_branches = record {
  branches =
      record {
        predicate = Defs.leaf (record { key = key_b; target = Defs.seq 1; op = Defs.ge });
        operations = [];
      }
      ∷ record {
        predicate = Defs.leaf (record { key = key_a; target = Defs.value (7 ∷ []); op = Defs.eq });
        operations = Defs.get (record { key = key_ab }) ∷ [];
      }
      ∷ [];
}

apply_kv_transaction-select_example :
    apply_kv_transaction memory two_branches applier
    ≡ performed memory applier
        (truth applier)
        (truth_lem applier)
        (select (truth applier) 0 two_branches.branches)
        applier
apply_kv_transaction-select_example =
    apply_kv_transaction-select memory applier (truth applier) (truth_lem applier) two_branches

select-transaction_from_pb_example :
    select (truth applier) 0 (transaction_from_pb enums (transaction_to_pb two_branches)).branches
    ≡ select (truth applier) 0 two_branches.branches
select-transaction_from_pb_example =
    select-transaction_from_pb enums enums_lawful (truth applier) two_branches

-- Where "a" has a sequence number of at least 1, read it, else read "b".
abbrev read_a_or_b : TxnRequest
read_a_or_b = record {
  operations = [];
  condition = record { key = key_a; target = some (Proto.seq 1); expected = pos 2 } ∷ [];
  if_then = record { request = some (Proto.get (record { key = key_a })) } ∷ [];
  else_then = record { request = some (Proto.get (record { key = key_b })) } ∷ [];
}

apply_cmd-legacy_choice_example :
    apply_cmd memory enums (Command.transaction read_a_or_b) applier
    ≡ (performed memory applier
            (truth applier)
            (truth_lem applier)
            (legacy_choice enums (truth applier) read_a_or_b)
          >>= λ reply. pure (Response.kv_transaction_reply reply))
        applier
apply_cmd-legacy_choice_example =
    apply_cmd-legacy_choice memory applier (truth applier) (truth_lem applier) enums read_a_or_b
