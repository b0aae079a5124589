-- ===== src/LogEntry/Proto.antt =====
-- The messages of crates/common/proto/proto/raft.proto, log_entry.proto and meta.proto that carry raft entries.
use databend_meta.Common.{ℕ, Bool, Option, List, Text, Bytes}
use databend_meta.KvTransaction.Proto.{TxnRequest, KvTransactionRequest}

pub record LogId : Type 0 where
  pub term : ℕ
  pub node_id : ℕ
  pub index : ℕ

pub record Vote : Type 0 where
  pub term : ℕ
  pub node_id : ℕ
  pub committed : Bool

pub record VoterGroup : Type 0 where
  pub node_ids : List ℕ

pub record Membership : Type 0 where
  pub configs : List VoterGroup
  pub nodes : List ℕ

pub record Node : Type 0 where
  pub name : Text
  pub addr : Text
  pub port : ℕ
  pub grpc_api_advertise_address : Option Text

pub record CmdAddNode : Type 0 where
  pub node_id : ℕ
  pub node : Option Node
  pub overriding : Bool

pub record CmdRemoveNode : Type 0 where
  pub node_id : ℕ

pub record CmdSetFeature : Type 0 where
  pub feature : Text
  pub enable : Bool

pub record MatchSeq : Type 0 where
  pub ge : Bool
  pub value : ℕ

pub record CmdUpsertKv : Type 0 where
  pub key : Text
  pub seq : Option MatchSeq
  pub value : Option Bytes
  pub expire_at : Option ℕ
  pub ttl_ms : Option ℕ

-- `oneof cmd`
pub data Cmd : Type 0 where
  add_node : CmdAddNode → Cmd
  remove_node : CmdRemoveNode → Cmd
  set_feature : CmdSetFeature → Cmd
  upsert_kv : CmdUpsertKv → Cmd
  transaction : TxnRequest → Cmd
  kv_transaction : KvTransactionRequest → Cmd
  membership : Membership → Cmd

pub record LogEntry : Type 0 where
  pub log_id : Option LogId
  pub proposed_at_ms : Option ℕ
  pub cmd : Option Cmd

pub record AppendRequest : Type 0 where
  pub vote : Option Vote
  pub prev_log_id : Option LogId
  pub entries : List LogEntry
  pub leader_commit : Option LogId

pub record AppendResponse : Type 0 where
  pub rejected_by : Option Vote
  pub conflict_log_id : Option LogId
  pub last_log_id : Option LogId
