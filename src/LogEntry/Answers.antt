-- ===== src/LogEntry/Answers.antt =====
-- Answers to append requests, and requests that are refused.
use databend_meta.Common.{ℕ, ◌≡◌, refl, none, some, List, [], ◌∷◌, ◌++◌}
use databend_meta.Types.SysData.{Membership}
use databend_meta.KvTransaction.Proto.{ProtoEnums}
use databend_meta.Applier.Command.{Entry}
use databend_meta.LogEntry.Proto
use databend_meta.LogEntry.Convert.{
  Converted, ConvertError, ok, err, ◌>>=◌, missing_vote, try_into_raft,
}
use databend_meta.LogEntry.Append
use databend_meta.LogEntry.Append.{
  AppendEntriesResponse, StreamAppendResult, Vote, from_raft_response, into_raft_response,
  from_stream_result, into_stream_result, vote_to_pb, vote_from_pb, entries_from_pb,
  append_into_raft,
}

-- An answer as it arrives.
abbrev pub received_response : AppendEntriesResponse → AppendEntriesResponse
received_response (Append.partial_success none) = Append.success
received_response r = r

-- An answer to an append request arrives as it was sent, but a partial success without a log id arrives as a success;
-- the answer of a stream arrives as it was sent in every case.
pub into_raft_response-from_raft_response :
    (r : AppendEntriesResponse) (s : StreamAppendResult)
    → (into_raft_response (from_raft_response r) ≡ received_response r)
      × (into_stream_result (from_stream_result s) ≡ s)
unfolding into_raft_response from_raft_response into_stream_result from_stream_result
into_raft_response-from_raft_response r s = (response r, result s)
  where
    response :
        (r : AppendEntriesResponse)
        → into_raft_response (from_raft_response r) ≡ received_response r
    response Append.success = refl
    response (Append.partial_success none) = refl
    response (Append.partial_success (some id)) = refl
    response AppendEntriesResponse.conflict = refl
    response (AppendEntriesResponse.higher_vote v) = refl

    result : (s : StreamAppendResult) → into_stream_result (from_stream_result s) ≡ s
    result (Append.matched none) = refl
    result (Append.matched (some id)) = refl
    result (StreamAppendResult.conflict id) = refl
    result (StreamAppendResult.higher_vote v) = refl

-- An error behind entries that can be read is the error of the whole.
stops :
    (r : Converted Entry) (read rest : Converted (List Entry)) (es : List Entry) (e : ConvertError)
    → (r >>= λ x. read >>= λ xs. ok (x ∷ xs)) ≡ ok es
    → ((xs : List Entry) → read ≡ ok xs → rest ≡ err e)
    → (r >>= λ x. rest >>= λ xs. ok (x ∷ xs)) ≡ err e
stops (ok x) (ok xs) rest es e h k = rw (k xs refl)
stops (ok x) (err e') rest es e h k = cc
stops (err e') read rest es e h k = cc

module _ (enums : ProtoEnums) (new_membership : List (List ℕ) → List ℕ → Converted Membership) where
  entries_from_pb-err :
      (before after : List Proto.LogEntry) (m : Proto.LogEntry) (es : List Entry) (e : ConvertError)
      → entries_from_pb enums new_membership before ≡ ok es
      → try_into_raft enums new_membership m ≡ err e
      → entries_from_pb enums new_membership (before ++ m ∷ after) ≡ err e
  unfolding entries_from_pb
  entries_from_pb-err [] after m es e h bad = rw bad
  entries_from_pb-err (b ∷ before) after m es e h bad =
      stops (try_into_raft enums new_membership b) (entries_from_pb enums new_membership before)
        (entries_from_pb enums new_membership (before ++ m ∷ after)) es e h
        (λ xs read. entries_from_pb-err before after m xs e read bad)

  -- Where a request carries a vote and its entries up to the message `m` can be read: if `m` cannot, the whole request is
  -- refused with the error of `m`; a request without a vote is refused whatever its entries are.
  pub append_into_raft-err :
      (req : Proto.AppendRequest) (vote : Proto.Vote) (before after : List Proto.LogEntry)
      (m : Proto.LogEntry) (es : List Entry) (e : ConvertError)
      → entries_from_pb enums new_membership before ≡ ok es
      → try_into_raft enums new_membership m ≡ err e
      → (append_into_raft enums new_membership
            (record req { vote = some vote; entries = before ++ m ∷ after })
          ≡ err e)
        × (append_into_raft enums new_membership (record req { vote = none }) ≡ err missing_vote)
  unfolding append_into_raft
  append_into_raft-err req vote before after m es e readable bad =
      (rw (entries_from_pb-err before after m es e readable bad), refl)
