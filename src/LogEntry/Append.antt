-- ===== src/LogEntry/Append.antt =====
-- `PbAppendRequestExt` and `PbAppendResponseExt`, with vote_ext.rs.
use databend_meta.Common.{ℕ, Bool, Option, none, some, List, [], ◌∷◌, option_map}
use databend_meta.Types.SysData.{LogId, Membership}
use databend_meta.KvTransaction.Proto.{ProtoEnums}
use databend_meta.Applier.Command.{Entry}
use databend_meta.LogEntry.Proto
use databend_meta.LogEntry.Convert.{
  Converted, ok, ◌>>=◌, ok_or, missing_vote, log_id_to_pb, log_id_from_pb, from_raft, try_into_raft,
}

-- `Vote`, `AppendEntriesRequest` and its answers of the crate openraft
pub record Vote : Type 0 where
  pub term : ℕ
  pub node_id : ℕ
  pub committed : Bool

pub record AppendEntriesRequest : Type 0 where
  pub vote : Vote
  pub prev_log_id : Option LogId
  pub entries : List Entry
  pub leader_commit : Option LogId

pub data AppendEntriesResponse : Type 0 where
  success : AppendEntriesResponse
  partial_success : Option LogId → AppendEntriesResponse
  conflict : AppendEntriesResponse
  higher_vote : Vote → AppendEntriesResponse

pub data StreamAppendResult : Type 0 where
  matched : Option LogId → StreamAppendResult
  conflict : LogId → StreamAppendResult
  higher_vote : Vote → StreamAppendResult

unfoldable pub vote_to_pb : Vote → Proto.Vote
vote_to_pb v = record { term = v.term; node_id = v.node_id; committed = v.committed }

unfoldable pub vote_from_pb : Proto.Vote → Vote
vote_from_pb v = record { term = v.term; node_id = v.node_id; committed = v.committed }

abbrev pub collected :
    Option Proto.LogEntry → Option (List Proto.LogEntry) → Option (List Proto.LogEntry)
collected (some m) (some ms) = some (m ∷ ms)
collected (some m) none = none
collected none ms = none

-- `map(pb::LogEntry::from_raft).collect()`; `none` is a panic.
unfoldable pub entries_to_pb : List Entry → Option (List Proto.LogEntry)
entries_to_pb [] = some []
entries_to_pb (e ∷ es) = collected (from_raft e) (entries_to_pb es)

unfoldable pub append_from_raft : AppendEntriesRequest → Option Proto.AppendRequest
unfolding vote_to_pb entries_to_pb log_id_to_pb
append_from_raft req =
    option_map
      (λ (entries : List Proto.LogEntry). record {
        vote = some (vote_to_pb req.vote);
        prev_log_id = option_map log_id_to_pb req.prev_log_id;
        entries = entries;
        leader_commit = option_map log_id_to_pb req.leader_commit;
      })
      (entries_to_pb req.entries)

module _ (enums : ProtoEnums) (new_membership : List (List ℕ) → List ℕ → Converted Membership) where
  unfoldable pub entries_from_pb : List Proto.LogEntry → Converted (List Entry)
  entries_from_pb [] = ok []
  entries_from_pb (m ∷ ms) =
      try_into_raft enums new_membership m >>= λ e. entries_from_pb ms >>= λ es. ok (e ∷ es)

  unfoldable pub append_into_raft : Proto.AppendRequest → Converted AppendEntriesRequest
  unfolding vote_from_pb entries_from_pb log_id_from_pb
  append_into_raft m = ok_or (option_map vote_from_pb m.vote) missing_vote >>= λ vote.
      entries_from_pb m.entries >>= λ entries. ok (record {
        vote = vote;
        prev_log_id = option_map log_id_from_pb m.prev_log_id;
        entries = entries;
        leader_commit = option_map log_id_from_pb m.leader_commit;
      })

unfoldable pub from_raft_response : AppendEntriesResponse → Proto.AppendResponse
unfolding vote_to_pb log_id_to_pb
from_raft_response success = record {
  rejected_by = none;
  conflict_log_id = none;
  last_log_id = none;
}
from_raft_response (partial_success last) = record {
  rejected_by = none;
  conflict_log_id = none;
  last_log_id = option_map log_id_to_pb last;
}
from_raft_response AppendEntriesResponse.conflict = record {
  rejected_by = none;
  conflict_log_id = some (record { term = 0; node_id = 0; index = 0 });
  last_log_id = none;
}
from_raft_response (AppendEntriesResponse.higher_vote v) = record {
  rejected_by = some (vote_to_pb v);
  conflict_log_id = none;
  last_log_id = none;
}

abbrev accepted : Option Proto.LogId → AppendEntriesResponse
accepted (some id) = partial_success (some (log_id_from_pb id))
accepted none = success

abbrev answered :
    Option Proto.Vote → Option Proto.LogId → Option Proto.LogId → AppendEntriesResponse
answered (some v) conflict_log_id last = AppendEntriesResponse.higher_vote (vote_from_pb v)
answered none (some id) last = AppendEntriesResponse.conflict
answered none none last = accepted last

unfoldable pub into_raft_response : Proto.AppendResponse → AppendEntriesResponse
unfolding vote_from_pb log_id_from_pb
into_raft_response m = answered m.rejected_by m.conflict_log_id m.last_log_id

unfoldable pub from_stream_result : StreamAppendResult → Proto.AppendResponse
unfolding vote_to_pb log_id_to_pb
from_stream_result (matched last) = record {
  rejected_by = none;
  conflict_log_id = none;
  last_log_id = option_map log_id_to_pb last;
}
from_stream_result (StreamAppendResult.conflict id) = record {
  rejected_by = none;
  conflict_log_id = some (log_id_to_pb id);
  last_log_id = none;
}
from_stream_result (StreamAppendResult.higher_vote v) = record {
  rejected_by = some (vote_to_pb v);
  conflict_log_id = none;
  last_log_id = none;
}

abbrev streamed : Option Proto.Vote → Option Proto.LogId → Option Proto.LogId → StreamAppendResult
streamed (some v) conflict_log_id last = StreamAppendResult.higher_vote (vote_from_pb v)
streamed none (some id) last = StreamAppendResult.conflict (log_id_from_pb id)
streamed none none last = matched (option_map log_id_from_pb last)

unfoldable pub into_stream_result : Proto.AppendResponse → StreamAppendResult
unfolding vote_from_pb log_id_from_pb
into_stream_result m = streamed m.rejected_by m.conflict_log_id m.last_log_id
