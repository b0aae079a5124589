-- ===== src/Applier/Response.antt =====
-- The responses of meta.proto that operations are answered with, and `AppliedState` of
-- crates/server/types/src/applied_state.rs.
use databend_meta.Common.{
  ℕ, Bool, true, false, not, Option, List, Text, Bytes, is_some, is_none, option_eq,
}
use databend_meta.Common.Int.{saturating_sub}
use databend_meta.Types.SeqV.{SeqV, PbSeqV}
use databend_meta.Types.Node.{Node, node_eq}
use databend_meta.Types.Change
use databend_meta.Types.Change.{Change}

pub record TxnGetResponse : Type 0 where
  pub key : Text
  pub value : Option PbSeqV

pub record TxnPutResponse : Type 0 where
  pub key : Text
  pub prev_value : Option PbSeqV
  pub current : Option PbSeqV

pub record TxnDeleteResponse : Type 0 where
  pub key : Text
  pub success : Bool
  pub prev_value : Option PbSeqV

pub record TxnDeleteByPrefixResponse : Type 0 where
  pub prefix : Text
  pub count : ℕ

pub record FetchIncreaseU64Response : Type 0 where
  pub key : Text
  pub before_seq : ℕ
  pub before : ℕ
  pub after_seq : ℕ
  pub after : ℕ

-- `FetchIncreaseU64Response::new`
unfoldable pub new_fetch_response : Text → SeqV ℕ → SeqV ℕ → FetchIncreaseU64Response
new_fetch_response key before after = record {
  key = key;
  before_seq = before.seq;
  before = before.value;
  after_seq = after.seq;
  after = after.value;
}

-- `FetchIncreaseU64Response::new_unchanged`
unfoldable pub new_unchanged : Text → SeqV ℕ → FetchIncreaseU64Response
new_unchanged key before = record {
  key = key;
  before_seq = before.seq;
  before = before.value;
  after_seq = before.seq;
  after = before.value;
}

-- `FetchIncreaseU64Response::delta`
unfoldable pub fetch_delta : FetchIncreaseU64Response → ℕ
unfolding saturating_sub
fetch_delta r = saturating_sub r.after r.before

pub data TxnOpResponse : Type 0 where
  get : TxnGetResponse → TxnOpResponse
  put : TxnPutResponse → TxnOpResponse
  delete : TxnDeleteResponse → TxnOpResponse
  delete_by_prefix : TxnDeleteByPrefixResponse → TxnOpResponse
  fetch_increase_u64 : FetchIncreaseU64Response → TxnOpResponse

pub record KvTransactionReply : Type 0 where
  pub executed_branch : Option ℕ
  pub responses : List TxnOpResponse

pub data AppliedState : Type 0 where
  node : Option Node → Option Node → AppliedState
  kv : Change Bytes ℕ → AppliedState
  kv_transaction_reply : KvTransactionReply → AppliedState
  nothing : AppliedState

unfoldable pub changed : AppliedState → Bool
unfolding node_eq Change.is_changed
changed (node prev result) = not (option_eq node_eq prev result)
changed (kv ch) = Change.is_changed ch
changed (kv_transaction_reply reply) = is_some reply.executed_branch
changed nothing = false

unfoldable pub prev_is_none : AppliedState → Bool
prev_is_none (node prev result) = is_none prev
prev_is_none (kv ch) = is_none ch.prev
prev_is_none (kv_transaction_reply reply) = true
prev_is_none nothing = true

unfoldable pub result_is_none : AppliedState → Bool
result_is_none (node prev result) = is_none result
result_is_none (kv ch) = is_none ch.result
result_is_none (kv_transaction_reply reply) = is_none reply.executed_branch
result_is_none nothing = true

unfoldable pub prev_is_some : AppliedState → Bool
unfolding prev_is_none
prev_is_some st = not (prev_is_none st)

unfoldable pub result_is_some : AppliedState → Bool
unfolding result_is_none
result_is_some st = not (result_is_none st)
