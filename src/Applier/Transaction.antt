-- ===== src/Applier/Transaction.antt =====
-- `apply_kv_transaction`
use databend_meta.Common.{ℕ, ◌+◌, ◌%◌, none, some, List, [], ◌∷◌, Action, if◌then◌else◌}
use databend_meta.Common.Int.{u32_mod}
use databend_meta.KvTransaction.Defs.{Operation, Branch, Transaction}
use databend_meta.StateMachine.Api.{StateMachineApi}
use databend_meta.Applier.Response.{TxnOpResponse, KvTransactionReply}
use databend_meta.Applier.Defs.{Applier, reads, ◌>>=◌, pure}
use databend_meta.Applier.Evaluate.{eval_predicate}
use databend_meta.Applier.Execute.{execute_op}

module _ (api : StateMachineApi) where
  -- the loop over `branch.operations`
  unfoldable pub execute_ops : List Operation → Action (Applier api) (List TxnOpResponse)
  unfolding execute_op
  execute_ops [] = pure []
  execute_ops (op ∷ ops) = do r ← execute_op api op; rs ← execute_ops ops; pure (r ∷ rs)

  -- `i as u32`
  abbrev pub branch_reply : ℕ → List TxnOpResponse → KvTransactionReply
  branch_reply i responses = record { executed_branch = some (i % u32_mod); responses = responses }

  abbrev pub execute_branch : ℕ → List Operation → Action (Applier api) KvTransactionReply
  execute_branch i ops = do responses ← execute_ops ops; pure (branch_reply i responses)

  abbrev pub no_branch : KvTransactionReply
  no_branch = record { executed_branch = none; responses = [] }

  -- the loop over the branches, from the index `i`
  unfoldable pub apply_branches : ℕ → List Branch → Action (Applier api) KvTransactionReply
  unfolding eval_predicate execute_ops
  apply_branches i [] = pure no_branch
  apply_branches i (b ∷ bs) = do
    matched ← reads api (eval_predicate api b.predicate)
    if matched then execute_branch i b.operations else apply_branches (i + 1) bs

  unfoldable pub apply_kv_transaction : Transaction → Action (Applier api) KvTransactionReply
  unfolding apply_branches
  apply_kv_transaction txn = apply_branches 0 txn.branches
