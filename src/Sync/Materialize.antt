-- ===== src/Sync/Materialize.antt =====
-- src/sync.rs: `materialize_merges`, by which the connector puts the outcomes of the merges into the
-- plan, and `verify_materialized_plan`, by which its peer checks them; `authenticate_record` and
-- `next_sequence` of src/state.rs. The keyed hashes of the authenticators are parameters.
pub mod Edits
pub mod Verified
pub mod Agreement
pub mod Reconciled
pub mod Causality
pub mod Shape
mod Tests
use file_local.Prelude.{
  ℕ, suc, ◌+◌, Bool, true, false, not, Option, none, some, List, [], ◌∷◌, ◌++◌, ◌&&◌, if◌then◌else◌,
  is_empty, keep, length, holds, ℕ_discrete,
}
use file_local.Prelude.Order.{cmp_int, is_ge, ℤ}
use file_local.Prelude.Results.{Result, ok, err, ◌>>=◌, ok_or, guard, ◌>>◌}
use file_local.Prelude.Sort.{sort_by}
use file_local.Model.{
  Bytes, Bytes-discrete, Entry, Entry-discrete, Record, Record-discrete, BaseVersion-discrete,
  Version, VersionId, file, version_id,
}
use file_local.Merge.Types.{ConflictHunk, DiffOp, FallbackReason}
use file_local.Reconcile.{Conflict, MergeCandidate, Plan, merged_conflict, whole_file_conflict}
use file_local.Sync.Outcomes.{
  ComputedMerge, Outcome, PlanError, compute_merge_outcomes, differs, missing_record, store_failed,
}
use file_local.Sync.Seen.{remember_version}

abbrev pub is_path : Bytes → Bytes → Bool
is_path p q = holds (Bytes-discrete q p)

-- `iter().find(|record| record.path == path)`.
unfoldable pub find_record : Bytes → List Record → Option Record
find_record p [] = none
find_record p (r ∷ rs) = let rest = find_record p rs in if is_path p r.path then some r else rest

-- `iter_mut().find(..)` and the assignment to what it finds.
unfoldable pub replace_record : Bytes → Record → List Record → Option (List Record)
replace_record p result [] = none
replace_record p result (r ∷ rs) =
    let rest = replace_record p result rs in
    if is_path p r.path
    then some (result ∷ rs)
    else elim rest [ none ↦ none | some rs' ↦ some (r ∷ rs') ]

-- `retain(|conflict| conflict.path != path)`.
unfoldable pub retain_conflicts : Bytes → List Conflict → List Conflict
retain_conflicts p cs = keep (λ c. not (is_path p c.path)) cs

-- `filter(|conflict| conflict.path == path)`.
unfoldable pub conflicts_at : Bytes → List Conflict → List Conflict
conflicts_at p cs = keep (λ c. is_path p c.path) cs

-- What `replace_candidate_result` pushes.
abbrev pub overlap_conflicts : MergeCandidate → Record → List ConflictHunk → List Conflict
overlap_conflicts c result hunks =
    if is_empty hunks then [] else merged_conflict c.base c.winner c.loser result hunks ∷ []

unfoldable pub replace_candidate_result :
    Plan → MergeCandidate → Record → List ConflictHunk → Result Plan PlanError
replace_candidate_result plan c result hunks = do
  records ← ok_or (replace_record c.path result plan.records) missing_record
  ok (record plan {
    records = records;
    conflicts = retain_conflicts c.path plan.conflicts ++ overlap_conflicts c result hunks;
  })

abbrev pub fallback_conflict : MergeCandidate → FallbackReason → Conflict
fallback_conflict c reason = record (whole_file_conflict c.winner c.loser reason) {
  base = some c.base;
}

unfoldable pub replace_candidate_fallback : Plan → MergeCandidate → FallbackReason → Plan
replace_candidate_fallback plan c reason = record plan {
  conflicts = retain_conflicts c.path plan.conflicts ++ fallback_conflict c reason ∷ [];
}

unfoldable pub sort_conflicts : Plan → Plan
sort_conflicts plan = record plan { conflicts = sort_by (λ c. c.path) plan.conflicts }

abbrev pub max_int : ℤ → ℤ → ℤ
max_int a b = if is_ge (cmp_int a b) then a else b

-- The share's row in the store, the objects that were published, and whether all of the store's calls
-- for a merge, with its sequence number and its contents, succeed: `peer_id`, `next_sequence` (whose
-- counter ends with `i64`), `authenticate_record`, `begin_object` with its sink, and
-- `mark_object_generated`. What a call that fails leaves in the store is not part of the model.
pub record Share : Type 0 where
  pub sequence : ℕ
  pub accepts : ℕ → Bytes → Bool
  pub generated : List (Bytes × Bytes)

module _ (seal_id : Bytes → ℕ → Bytes) (seal_base : VersionId → Entry → Bytes)
    (seal_version : Bytes → Version → Bytes) where
  -- The tag covers the fields of the version but itself.
  unfoldable pub version_tag : Bytes → Version → Bytes
  version_tag p v = seal_version p (record v { version_authenticator = none })

  -- `authenticate_record`.
  unfoldable pub authenticate_record : Record → Record
  authenticate_record r =
      let v = r.version in
      let v₁ = record v { id_authenticator = some (seal_id v.peer v.sequence) } in
      let v₂ = record v₁ { base_authenticator = some (seal_base (version_id v₁) v₁.entry) } in
      record r { version = record v₂ { version_authenticator = some (version_tag r.path v₂) } }

  -- The record of a merge, by the peer under the sequence number.
  unfoldable pub merged_record : Bytes → ℕ → MergeCandidate → ComputedMerge → Record
  merged_record peer sequence c merged = authenticate_record (record (c.winner) {
    version = record {
      peer = peer;
      sequence = sequence;
      id_authenticator = none;
      timestamp_ns = max_int c.winner.version.timestamp_ns c.loser.version.timestamp_ns;
      seen = remember_version (remember_version [] c.winner.version) c.loser.version;
      merge_base = some c.base;
      version_authenticator = none;
      base_authenticator = none;
      entry = file merged.hash (length merged.bytes) merged.executable;
    };
  })

  -- The body of the loop.
  unfoldable pub materialize_one :
      Bytes → Share → Plan → MergeCandidate → Outcome → Result (Share × Plan) PlanError
  materialize_one peer s plan c (err reason) = ok (s, replace_candidate_fallback plan c reason)
  materialize_one peer s plan c (ok merged) = do
    let sequence = suc s.sequence
    guard (s.accepts sequence merged.bytes) store_failed
    let result = merged_record peer sequence c merged
    plan' ← replace_candidate_result plan c result merged.hunks
    ok (
      record s { sequence = sequence; generated = (merged.hash, merged.bytes) ∷ s.generated },
      plan',
    )

  unfoldable pub materialize_loop :
      Bytes → Share → Plan → List MergeCandidate → List Outcome → Result (Share × Plan) PlanError
  materialize_loop peer s plan [] os = ok (s, plan)
  materialize_loop peer s plan (c ∷ cs) [] = ok (s, plan)
  materialize_loop peer s plan (c ∷ cs) (o ∷ os) = do
    r ← materialize_one peer s plan c o
    materialize_loop peer r.0 r.1 cs os

-- What `preview_merges` does with a candidate: the winner's version keeps its identity.
unfoldable pub preview_one : Plan → MergeCandidate → Outcome → Result Plan PlanError
preview_one plan c (err reason) = ok (replace_candidate_fallback plan c reason)
preview_one plan c (ok merged) =
    replace_candidate_result plan c
      (record (c.winner) {
        version = record (c.winner.version) {
          entry = file merged.hash (length merged.bytes) merged.executable;
        };
      })
      merged.hunks

unfoldable pub preview_loop : Plan → List MergeCandidate → List Outcome → Result Plan PlanError
preview_loop plan [] os = ok plan
preview_loop plan (c ∷ cs) [] = ok plan
preview_loop plan (c ∷ cs) (o ∷ os) = do plan' ← preview_one plan c o; preview_loop plan' cs os

unfoldable pub conflicts-discrete : Discrete (List Conflict)
conflicts-discrete = hlevel (Record-discrete, BaseVersion-discrete, Bytes-discrete, ℕ_discrete)

-- The body of the loop of `verify_materialized_plan`, with the conflicts at the candidate's path.
unfoldable pub verify_outcome :
    MergeCandidate → Outcome → Record → List Conflict → Result (Unit {0}) PlanError
verify_outcome c (ok merged) result at_path =
    guard
      (holds (
          Entry-discrete result.version.entry
            (file merged.hash (length merged.bytes) merged.executable))
        && holds (conflicts-discrete at_path (overlap_conflicts c result merged.hunks)))
      differs
verify_outcome c (err reason) result at_path =
    guard
      (holds (Record-discrete result c.winner)
        && holds (conflicts-discrete at_path (fallback_conflict c reason ∷ [])))
      differs

unfoldable pub verify_loop : Plan → List MergeCandidate → List Outcome → Result (Unit {0}) PlanError
verify_loop proposed [] os = ok tt
verify_loop proposed (c ∷ cs) [] = ok tt
verify_loop proposed (c ∷ cs) (o ∷ os) = do
  result ← ok_or (find_record c.path proposed.records) missing_record
  verify_outcome c o result (conflicts_at c.path proposed.conflicts)
  verify_loop proposed cs os

module _ (read : Bytes → Option Bytes) (blake3 : Bytes → Bytes)
    (diff : List Bytes → List Bytes → List DiffOp) where
  unfoldable pub preview_merges : Plan → Result Plan PlanError
  preview_merges plan = do
    outcomes ← compute_merge_outcomes read blake3 diff plan.merges
    plan' ← preview_loop plan plan.merges outcomes
    ok (sort_conflicts plan')

  unfoldable pub verify_materialized_plan : Plan → Plan → Result (Unit {0}) PlanError
  verify_materialized_plan proposed metadata = do
    outcomes ← compute_merge_outcomes read blake3 diff metadata.merges
    verify_loop proposed metadata.merges outcomes

  module _ (seal_id : Bytes → ℕ → Bytes) (seal_base : VersionId → Entry → Bytes)
      (seal_version : Bytes → Version → Bytes) where
    unfoldable pub materialize_merges : Bytes → Share → Plan → Result (Share × Plan) PlanError
    materialize_merges peer s plan = do
      outcomes ← compute_merge_outcomes read blake3 diff plan.merges
      r ← materialize_loop seal_id seal_base seal_version peer s plan plan.merges outcomes
      ok (r.0, sort_conflicts r.1)
