-- ===== src/Applier/Requests.antt =====
-- Transactions from the form they are sent in to what they do.
use databend_meta.Common.{◌≡◌, ◌∙◌, sym, ap, Bool, ok}
use databend_meta.KvTransaction.Defs.{Condition, Transaction}
use databend_meta.KvTransaction.Proto.{ProtoEnums, ReadsMembers, TxnRequest}
use databend_meta.KvTransaction.Convert.{
  transaction_from_pb, transaction_to_pb, transaction_from_txn_request,
}
use databend_meta.KvTransaction.RoundTrip.{select-transaction_from_pb}
use databend_meta.KvTransaction.Legacy.{legacy_choice, select-transaction_from_txn_request}
use databend_meta.StateMachine.Api.{StateMachineApi}
use databend_meta.Applier.Response
use databend_meta.Applier.Defs.{Applier, ◌>>=◌, pure}
use databend_meta.Applier.Evaluate.{eval_condition}
use databend_meta.Applier.Transaction.{apply_kv_transaction}
use databend_meta.Applier.Command
use databend_meta.Applier.Command.{apply_cmd}
use databend_meta.Applier.Select.{performed, apply_kv_transaction-select}

module _ (api : StateMachineApi) (a : Applier api) (v : Condition → Bool)
    (conditions : (c : Condition) → eval_condition api c a ≡ ok (v c)) (enums : ProtoEnums) where
  -- Where every condition can be evaluated in the current state, to the truth that `v` gives it, and the generated
  -- accessors read a member's number as that member: a transaction that was sent over the wire does and answers
  -- what the original does and answers.
  pub apply_kv_transaction-transaction_from_pb :
      (readable : ReadsMembers enums) (txn : Transaction)
      → apply_kv_transaction api (transaction_from_pb enums (transaction_to_pb txn)) a
        ≡ apply_kv_transaction api txn a
  apply_kv_transaction-transaction_from_pb readable txn =
      apply_kv_transaction-select api a v conditions
        (transaction_from_pb enums (transaction_to_pb txn))
      ∙ ap (λ c. performed api a v conditions c a) (select-transaction_from_pb enums readable v txn)
      ∙ sym (apply_kv_transaction-select api a v conditions txn)

  -- Where every condition can be evaluated in the current state, to the truth that `v` gives it: the command of a
  -- `TxnRequest` executes the first conditional operation that holds, else `if_then` where all conditions hold, else
  -- `else_then` where it is not empty, else nothing, and answers with the reply of that choice.
  pub apply_cmd-legacy_choice :
      (req : TxnRequest)
      → apply_cmd api enums (Command.transaction req) a
        ≡ (performed api a v conditions (legacy_choice enums v req) >>= λ reply.
              pure (Response.kv_transaction_reply reply))
            a
  unfolding apply_cmd
  apply_cmd-legacy_choice req =
      ap (λ m. ((λ _. m) >>= λ reply. pure (Response.kv_transaction_reply reply)) a)
        (apply_kv_transaction-select api a v conditions (transaction_from_txn_request enums req)
          ∙ ap (λ c. performed api a v conditions c a)
              (select-transaction_from_txn_request enums v req))
