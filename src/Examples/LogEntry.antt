-- ===== src/Examples/LogEntry.antt =====
-- Entries that are sent and arrive, with a `Membership::new` that accepts every config.
use databend_meta.Common.{ℕ, ◌≡◌, ◌++◌, refl, arith, true, none, some, List, [], ◌∷◌}
use databend_meta.Types.Upsert
use databend_meta.Types.SysData.{Membership}
use databend_meta.StateMachine.Memory.{memory}
use databend_meta.StateMachine.Memory.Lawful.{memory_values}
use databend_meta.Applier.Command
use databend_meta.Applier.Command.{Entry, apply}
use databend_meta.Applier.Defs.{Applier}
use databend_meta.LogEntry.Proto
use databend_meta.LogEntry.Convert.{
  Converted, ok, err, to_set, add_to_set, from_raft, try_into_raft, missing_log_id, missing_vote,
}
use databend_meta.LogEntry.Append.{
  AppendEntriesRequest, append_from_raft, append_into_raft, entries_from_pb, partial_success,
  success, matched, into_raft_response, from_raft_response, into_stream_result, from_stream_result,
}
use databend_meta.LogEntry.Replicated.{
  Alike, apply-try_into_raft, append_into_raft-append_from_raft,
}
use databend_meta.LogEntry.Answers.{into_raft_response-from_raft_response, append_into_raft-err}
use databend_meta.Examples.{key_a, node_x, log_id, enums, enums_lawful}
use databend_meta.Examples.Reads.{truth, truth_lem}

abbrev accepts : List (List ℕ) → List ℕ → Converted Membership
accepts configs nodes = ok (record { configs = configs; nodes = nodes })

-- Any value at "a" is replaced.
abbrev put_a : Entry
put_a = record {
  log_id = log_id 7;
  payload = Command.normal (record {
    time_ms = some 1000;
    cmd = Command.upsert (record {
      key = key_a;
      seq = Upsert.any;
      value = Upsert.update (9 ∷ []);
      value_meta = some (record { expire_at = none; ttl = none });
    });
  });
}

abbrev add_x : Entry
add_x = record {
  log_id = log_id 8;
  payload = Command.normal (record { time_ms = none; cmd = Command.add_node 3 node_x true });
}

abbrev joint : Entry
joint = record {
  log_id = log_id 9;
  payload =
      Command.membership
        (record { configs = (1 ∷ 2 ∷ []) ∷ (2 ∷ 3 ∷ []) ∷ []; nodes = 1 ∷ 2 ∷ 3 ∷ [] });
}

apply-try_into_raft_example :
    (m : Proto.LogEntry) × (e' : Entry) × (from_raft put_a ≡ some m)
    × (try_into_raft enums accepts m ≡ ok e')
    × (e'.log_id ≡ put_a.log_id)
    × ((a : Applier memory) → apply memory enums e' a ≡ apply memory enums put_a a)
apply-try_into_raft_example =
    apply-try_into_raft memory memory_values enums enums_lawful truth truth_lem accepts put_a
      ((λ e. cc), tt)

abbrev request : AppendEntriesRequest
request = record {
  vote = record { term = 2; node_id = 1; committed = true };
  prev_log_id = some (log_id 6);
  entries = put_a ∷ add_x ∷ joint ∷ [];
  leader_commit = none;
}

append_into_raft-append_from_raft_example :
    (m : Proto.AppendRequest) × (req' : AppendEntriesRequest) × (append_from_raft request ≡ some m)
    × (append_into_raft enums accepts m ≡ ok req')
    × (req'.vote ≡ request.vote)
    × (req'.prev_log_id ≡ request.prev_log_id)
    × (req'.leader_commit ≡ request.leader_commit)
    × Alike memory memory_values enums enums_lawful truth truth_lem accepts req'.entries
        request.entries
unfolding to_set add_to_set
append_into_raft-append_from_raft_example =
    append_into_raft-append_from_raft memory memory_values enums enums_lawful truth truth_lem
      accepts request
      (((λ e. cc), tt), ((omega arith, refl), (((refl, (refl, tt)), refl, refl), tt)))

abbrev unnamed : Proto.LogEntry
unnamed = record { log_id = none; proposed_at_ms = none; cmd = none }

abbrev blank_7 : Proto.LogEntry
blank_7 = record {
  log_id = some (record { term = 1; node_id = 1; index = 7 });
  proposed_at_ms = none;
  cmd = none;
}

abbrev sent : Proto.AppendRequest
sent = record { vote = none; prev_log_id = none; entries = []; leader_commit = none }

append_into_raft-err_example :
    (append_into_raft enums accepts (record sent {
      vote = some (record { term = 2; node_id = 1; committed = true });
      entries = (blank_7 ∷ []) ++ unnamed ∷ blank_7 ∷ [];
    })
      ≡ err missing_log_id)
    × (append_into_raft enums accepts (record sent { vote = none }) ≡ err missing_vote)
unfolding entries_from_pb try_into_raft
append_into_raft-err_example =
    append_into_raft-err enums accepts sent (record { term = 2; node_id = 1; committed = true })
      (blank_7 ∷ []) (blank_7 ∷ []) unnamed
      (record { log_id = log_id 7; payload = Command.blank } ∷ []) missing_log_id refl refl

into_raft_response-from_raft_response_example :
    (into_raft_response (from_raft_response (partial_success none)) ≡ success)
    × (into_stream_result (from_stream_result (matched (some (log_id 7))))
        ≡ matched (some (log_id 7)))
into_raft_response-from_raft_response_example =
    into_raft_response-from_raft_response (partial_success none) (matched (some (log_id 7)))
