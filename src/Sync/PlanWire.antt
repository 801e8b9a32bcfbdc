-- ===== src/Sync/PlanWire.antt =====
-- src/sync.rs: the plan on the wire, `write_plan`, and src/main.rs: the arms by which the responder
-- collects its chunks. The lengths of what serde_json makes of the parts are parameters.
pub mod RoundTrip
mod Tests
use file_local.Prelude.{
  ℕ, ◌≡◌, Bool, Option, List, [], ◌∷◌, ◌++◌, ◌||◌, length, ltb, map, saturating_add, if◌then◌else◌,
}
use file_local.Prelude.Results.{Result, ok, err, ◌>>=◌}
use file_local.Model.{Record}
use file_local.Reconcile.{Conflict, MergeCandidate, Plan}
use file_local.Sync.Chunks.{ChunkError, bounded_chunks}
use file_local.Sync.Snapshot.{max_metadata, max_records}

-- The messages of a plan.
pub data PlanMessage : Type 0 where
  apply_chunk :
      (records : List Record) (conflicts : List Conflict) (merges : List MergeCandidate)
      → PlanMessage
  apply_end : PlanMessage

pub data CollectError : Type 0 where
  plan_metadata_exceeded plan_records_exceeded plan_disconnected : CollectError

module _ (record_len : Record → Option ℕ) (conflict_len : Conflict → Option ℕ)
    (merge_len : MergeCandidate → Option ℕ) (envelope : ℕ) where
  unfoldable pub write_record_chunks : List Record → Result (List PlanMessage) ChunkError
  write_record_chunks records = do
    chunks ← bounded_chunks record_len records envelope
    ok (map (λ chunk. apply_chunk chunk [] []) chunks)

  unfoldable pub write_conflict_chunks : List Conflict → Result (List PlanMessage) ChunkError
  write_conflict_chunks conflicts = do
    chunks ← bounded_chunks conflict_len conflicts envelope
    ok (map (λ chunk. apply_chunk [] chunk []) chunks)

  unfoldable pub write_merge_chunks : List MergeCandidate → Result (List PlanMessage) ChunkError
  write_merge_chunks merges = do
    chunks ← bounded_chunks merge_len merges envelope
    ok (map (λ chunk. apply_chunk [] [] chunk) chunks)

  unfoldable pub write_plan : Plan → Result (List PlanMessage) ChunkError
  write_plan plan = do
    records ← write_record_chunks plan.records
    conflicts ← write_conflict_chunks plan.conflicts
    merges ← write_merge_chunks plan.merges
    ok (records ++ (conflicts ++ (merges ++ apply_end ∷ [])))

abbrev pub exceeds : ℕ → ℕ → Bool
exceeds pending more = ltb max_records (saturating_add pending more)

-- The arms of `serve_sync` for a plan, after the snapshot and up to the end of the plan, with the
-- pending plan and the bytes of metadata so far.
unfoldable pub collect_plan :
    (List Record → List Conflict → List MergeCandidate → ℕ)
    → Plan
    → ℕ
    → List PlanMessage
    → Result Plan CollectError
collect_plan len pending metadata [] = err plan_disconnected
collect_plan len pending metadata (apply_chunk records conflicts merges ∷ ms) =
    let total = saturating_add metadata (len records conflicts merges) in
    let more : Plan = record {
      records = pending.records ++ records;
      conflicts = pending.conflicts ++ conflicts;
      merges = pending.merges ++ merges;
    } in
    let rest = collect_plan len more total ms in
    if ltb max_metadata total
    then err plan_metadata_exceeded
    else (if exceeds (length pending.records) (length records)
          || exceeds (length pending.conflicts) (length conflicts)
          || exceeds (length pending.merges) (length merges)
        then err plan_records_exceeded
        else rest)
collect_plan len pending metadata (apply_end ∷ ms) = ok pending
