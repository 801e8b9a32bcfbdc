-- ===== src/Lib.antt =====
-- A model of file.local, which keeps directory trees of several peers in sync over SSH.
--
-- A peer scans its tree into records (a path and a version of its entry), exchanges them with
-- another peer, reconciles the two sets into a plan, merges concurrent edits of text files line by
-- line, and installs the plan. A watcher tells a coordinator when to start the next round. The
-- modules follow these parts:
--
--   Model      src/model.rs: entries, versions, records and their orders; Model/Ids the checks of
--              identifiers and configurations, with `peer_order` of src/sync.rs; Model/FilePath
--              `RelativePath::from_bytes`; Model/Causality the laws of `lww_cmp`.
--   Reconcile  src/reconcile.rs: `reconcile` and the constructors of `Conflict`. `at_path` is the
--              `match` of the loop, `both` its arms for two records, `resolve` and `merge_files` the
--              last of them. The maps by path are ascending association lists (Prelude/Sorted).
--   Merge      src/merge.rs: Merge/Types the limits and the data, Merge/Text `lines` and the UTF-8
--              test; `merge`, `edits`, `compose` and what they call have their names. A list of edits
--              from an index on stands for the index.
--   Watch      src/watch.rs: Watch/Status `WatchState`, Watch/Escape `BoundedError`, Watch/Debounce
--              `Debounce` and `AuditSchedule`, Watch/Heartbeat `Heartbeat`, Watch/Retry
--              `RetryBackoff`. What other threads do between two calls of the coordinator, and the
--              receiver of the wake channel, is a list of events: each method holds the lock for
--              its whole effect on the status.
--   Sync       src/sync.rs: Sync/Chunks `bounded_chunks`, which cuts items into frames;
--              Sync/Scheduling `NetworkOrder` and `CoarseQueuePosition`; Sync/Outcomes
--              `compute_merge_outcomes`, the merges of a round within its budget; Sync/Materialize
--              `materialize_merges`, `preview_merges` and `verify_materialized_plan`, and its Shape
--              `validate_materialized_plan_shape`; Sync/Seen `remember_version`; Sync/Heads
--              `intersect_heads` and `validate_ack_heads`; Sync/Snapshot `write_snapshot` and its
--              readers, whose frames are a list of messages with their lengths; Sync/PlanWire
--              `write_plan` and the arm of src/main.rs that collects it.
--   State      src/state.rs: State/Queue the queue for the installation slot, with
--              `eligible_candidates` and `eligible_predecessors`; the `HashMap` of the heads is an
--              association list; State/Remote `validate_remote_records`; State/Store
--              `replace_records_in` and `acknowledge_shared_heads`, where the rows of a share are an
--              association list that the SQL statements change.
--   Session    src/main.rs: Session/Transfer `transfer_batch_ends`, `validate_transfer_receipt` and
--              `ApplyProgressValidator`; Session/Deferral `InvalidationCycle` and `effective_plan`,
--              by which a round leaves alone the paths that changed under an earlier attempt.
--
-- Strings and byte vectors are lists of numbers, integers are unbounded where the code only
-- compares them, and checked or saturating arithmetic has its limit written out. An `Instant` is a
-- number of nanoseconds with a largest value, which is a parameter.
--
-- Bounds and fuel: the two loops of `compose` run on fuel, one more than the number of edits left;
-- each round takes an edit, so that is enough, and running out is a value of its own (`out_of_fuel`)
-- beside a slice or an index out of range (`panicked`). The outer loop of `bounded_chunks` runs on the number of
-- items, of which each round takes at least one.
--
-- The diff of the `similar` crate is a parameter; what its documentation says of the operations is
-- `IsDiff` in Merge/Patch. The length of what serde_json makes of an item is a parameter too, and so
-- are its encoding and decoding of versions, of which `IsSerde` says that they are inverse. The
-- contents of the stored objects, the blake3 hash and the keyed hashes of the authenticators are
-- parameters as well; the published objects and the sequence of a share are a record
-- (`Share`), with whether the store's calls for a merge succeed.
--
-- Not modelled: the rest of the store in SQLite (src/state.rs), the rest of the wire protocol
-- (src/sync.rs), the scanner (src/scan.rs), the command line, the daemon and the rest of the SSH
-- sessions (src/main.rs), `conflict_id`, random identifiers and serde; they are mostly calls of
-- libraries, processes and files.
pub mod Prelude
pub mod Model
pub mod Merge
pub mod Reconcile
pub mod Watch
pub mod Sync
pub mod State
pub mod Session
