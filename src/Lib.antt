-- ===== src/Lib.antt =====
-- databend-meta: the replicated state machine of the meta service, as committed raft log entries
-- change it.
--
-- The program. A raft log entry (crates/server/types/src/log_entry) carries a command (crates/server/types/src/cmd): an
-- upsert of one key, a transaction, a node to add or to remove, or a feature to switch. The applier
-- (crates/server/raft-store/src/applier/mod.rs) first deletes the keys that expired before the time of the entry, then
-- applies the command, and then sends the changes to subscribers. It works on the state machine through
-- crates/server/raft-store/src/state_machine_api_ext.rs, which writes the primary map of keys and the
-- index of expirations. Transactions arrive as protobuf messages and are converted by
-- crates/server/types/src/kv_transaction/convert.rs. A batch of entries is applied, committed and answered by
-- crates/server/raft-store/src/sm_v003/sm_v003.rs; system data, the start of cleaning and events do not wait for the
-- commit. Which releases can talk to each other is computed from
-- the features they have (crates/common/version). The versions that the
-- state machine kept of each key lie in levels (crates/server/raft-store/src/leveled_store), which are frozen, merged and written
-- to a file while snapshots read them. A node that starts brings the directory of an older release up to date
-- (crates/server/raft-store/src/ondisk). A node that is not the leader forwards a request to it
-- (crates/server/service/src/meta_node/meta_node.rs). Finished snapshots
-- lie in a directory, from which the last one is loaded and old ones are removed
-- (crates/server/raft-store/src/sm_v003/snapshot_loader.rs). A client goes round the endpoints of the cluster (crates/client/client/src/endpoints.rs).
--
-- The files.
--   Common         Booleans, texts, lists, `u64` and `u32` arithmetic, ordered maps, and the outcome of fallible code:
--                  `Result`, an `Action` that keeps the state it reached when it fails, a stream of results; decimal
--                  numbers and sorting of the standard library.
--   Types          crates/server/base/src and crates/server/types/src: intervals and times (time.rs), MetaSpec,
--                  SeqV with its messages (crates/common/proto/src/proto_ext/seq_v_ext.rs), UpsertKV,
--                  Change, Node, SysData, CmdContext.
--   KvTransaction  crates/server/types/src/kv_transaction: Operation (operation.rs), Defs and Build (mod.rs),
--                  Proto (the messages of crates/common/proto/proto), Convert (convert.rs); Meaning is the
--                  reference meaning of predicates; Conditions, RoundTrip and Legacy are about conversions.
--   Keys           Order (the order of strings), Prefix and Range (`prefix_right_bound` of
--                  crates/server/raft-store/src/utils.rs), Sequential
--                  (crates/common/proto/src/proto_ext/put_sequential_ext.rs).
--   StateMachine   Api (what is called of the crates map-api, seq-marked and state-machine-api), Laws (what is
--                  relied on of them), Ext (state_machine_api_ext.rs, with the theorems on upserts and
--                  listings below it), Memory (an instance in memory that keeps the laws).
--   Applier        Defs, Evaluate, Execute, Transaction, Clean, Command and Batch model the methods; Keeps,
--                  KeepsCmd and Upsert say what all of them keep; the other files are named for what they prove.
--   LogEntry       crates/server/types/src/log_entry/convert.rs: Proto (the messages), Convert (entries, with the extensions
--                  of crates/common/proto/src/proto_ext that they call), Append (requests and answers); Received,
--                  Replicated and Answers are about entries and answers that are sent and arrive.
--   LeveledStore   crates/server/raft-store/src/leveled_store: Mvcc (the tables of the crate map-api and their laws), Level,
--                  Levels (immutable_levels), LeveledMap (leveled_map, immutable_data and
--                  crates/server/raft-store/src/immutable_compactor), Compact (the choice in
--                  immutable_levels/compact_min_adjacent.rs); Order, Merged, Reads and Valid say what a read at a snapshot
--                  finds; Compacted and Smallest say what a compaction merges; Snapshot, Committed and Repeatable are about
--                  a snapshot that is held, Persisted and Newest about what the server does in the background.
--   OnDisk         crates/server/raft-store/src/ondisk: Version (data_version.rs, header.rs), Import (`RaftStoreEntry::upgrade` of
--                  key_spaces.rs and raft_log_v004/importer.rs), Disk (the directory of a node and runs over it), Upgrade
--                  (mod.rs and upgrade_to_v004.rs, write by write); Ensures are rules for runs, Phases and FromV003
--                  go through the disks that an upgrade passes, Crash puts crashes between them.
--   Client         crates/client/client/src/endpoints.rs: Endpoints; Sorted, Chosen, Rotation and Failing say which node a client
--                  turns to.
--   Service        crates/server/service/src: Errors, Forward (`handle_forwardable_request` of meta_node/meta_node.rs, message.rs), Remote
--                  (the far end) and Leader (`join` and `leave` of meta_service/meta_leader.rs); Relay, Bounds and Unreachable are
--                  about a request that is forwarded, Members about nodes that join and leave.
--   Snapshots      crates/server/raft-store/src: Id (state_machine/snapshot_id.rs, and the file names of snapshot_config.rs),
--                  Loader (sm_v003/snapshot_loader.rs), Store (sm_v003/snapshot_store_v003.rs), Order (the order of ids); Names and RoundTrip say what names are read
--                  as; Gather, Listed, Removed, Left, Loaded and Kept what a directory holds before and after a clean, Reached what it
--                  can hold at all.
--   Versions       crates/common/version/src: Version (version.rs), Spec (feature_span.rs and the peer range of raft_spec.rs),
--                  Truth and Rounds for one round of narrowing, Ranges and Peers for what the ranges promise; Raft and Grpc
--                  (raft_feat.rs, raft_spec.rs, grpc_feat.rs, grpc_spec.rs) hold the history of the features, on History;
--                  Settled is about the time after its last entry.
--   Examples       Runs on the instance in memory, and on small stores, clusters and directories.
--
-- How the code is rendered. An `async fn(&mut self) -> Result<T, io::Error>` is a function from the state to a result and
-- the state it reached; `?` stops at the first error and keeps what was written before it. A stream of results is a list
-- of them. A `String` is the list of its code points, in the order of `str`; a `Vec<u8>` is a list of bytes. A `u64` is a
-- natural number, with the wrap-around, the saturation or the cast of the source written out. Ordered
-- maps with number keys are ascending association lists. A run that writes files is the list of the disks that it passes
-- through, one for each write, and its result. Loops are structural recursion over what they walk, but two: the search
-- for a compatible version has five rounds, one for each version, and the loop of the upgrade two, since
-- only one version is upgraded. The loop that forwards a request is recursion on its retries; a `u64` has at most twenty digits.
--
-- Not in the repository, and hence a parameter: the maps and their sequence numbers (map-api), `SeqMarked` and
-- its tests, JSON of a `u64`, the enums generated for protobuf, the view of a batch with its commit and what is left where it is dropped, openraft and its order of log ids, the calls of the file system and how
-- they end, the file of a snapshot and the log of the crate raft-log. The laws on them state
-- documented behaviour only: a write returns the entries before and after it, a new value takes the next sequence
-- number, a scan yields the entries of its range.
--
-- Not modelled: logging, tracing and the record of I/O times; Display, but of the ids of snapshots; the paths of directories; cooperative yielding; range scans over the levels,
-- compact_all and the stream that is written to a file; the encoding of files; the raft log, which is a third-party crate; the
-- rest of the raft service, and gRPC on both sides; the parser of a version.
pub mod Common
pub mod Types
pub mod KvTransaction
pub mod Keys
pub mod StateMachine
pub mod Applier
pub mod LogEntry
pub mod OnDisk
pub mod LeveledStore
pub mod Versions
pub mod Client
pub mod Service
pub mod Snapshots
pub mod Examples
