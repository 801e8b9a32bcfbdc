-- ===== src/Sync/Materialize/Tests.antt =====
-- Runs of the merges of a round, and their theorems at concrete data.
use file_local.Prelude.{
  ◌≡◌, refl, ℕ, true, false, Option, none, some, List, [], ◌∷◌, arith, length, ℕ_discrete, keep,
  All, Any, ◌⊎◌, leb, ◌≤◌,
}
use file_local.Prelude.Order.{cmp_bytes, cmp_int, pos}
use file_local.Prelude.Results.{ok}
use file_local.Prelude.Sort.{insert_by, sort_by}
use file_local.Prelude.Sorted.{get, insert}
use file_local.Model.{
  BaseVersion, BaseVersion-discrete, Bytes, Bytes-discrete, Entry, Entry-discrete, Record,
  Record-discrete, Version, VersionId, VersionId-discrete, Version-discrete, file, has_seen,
  version_id,
}
use file_local.Merge.Types.{DiffOp, max_output_bytes}
use file_local.Merge.Patch.{IsDiff}
use file_local.Reconcile.{MergeCandidate, Plan, by_path, by_path_onto, reconcile}
use file_local.Sync.Seen.{remember_all, remember_one, remember_version}
use file_local.Sync.Outcomes.{ComputedMerge, compute_merge_outcomes, max_round_bytes}
use file_local.Sync.Outcomes.Budget.{AreWithin, Returns, compute_merge_outcomes-AreWithin}
use file_local.Sync.Materialize.{
  Share, authenticate_record, conflicts_at, conflicts-discrete, merged_record, version_tag,
}
use file_local.Sync.Materialize.Causality.{merged_record-has_seen}
use file_local.Sync.Materialize.Shape.{
  base-discrete, check_merged, check_outcomes, greatest_of, greatest_of_candidates,
  greatest_sequence, permitted_record, check_candidates, check_record, check_records,
  find_candidate, merges-discrete, ordinary_conflicts, validate_materialized_plan_shape,
}
use file_local.Sync.Materialize.Shape.Conflicts.{IsOutcome, conflicts_of}
use file_local.Sync.Materialize.Shape.Merged.{size_of, total_size}
use file_local.Sync.Materialize.Shape.Sound.{AreDistinct, AreKept, validate_shape-IsKept}

abbrev whole_diff : List Bytes → List Bytes → List DiffOp
whole_diff old new =
    record {
      is_equal = false;
      old_range = record { start = 0; end = length old };
      new_range = record { start = 0; end = length new };
    }
    ∷ []

whole_diff-IsDiff : (old new : List Bytes) → IsDiff old new 0 0 (whole_diff old new)
whole_diff-IsDiff old new = (refl, refl, omega arith, omega arith, λ e. cc, (refl, refl))

-- A store whose objects are named by their contents, and authenticators that say nothing.
abbrev read_named : Bytes → Option Bytes
read_named h = some h

abbrev named : Bytes → Bytes
named b = b

abbrev seal_id : Bytes → ℕ → Bytes
seal_id peer n = 1 ∷ n ∷ peer

abbrev seal_base : VersionId → Entry → Bytes
seal_base id e = 2 ∷ id.peer

abbrev seal_version : Bytes → Version → Bytes
seal_version p v = 3 ∷ p

abbrev peer_a : Bytes
peer_a = b'a' ∷ []

abbrev peer_b : Bytes
peer_b = b'b' ∷ []

abbrev base_text : Bytes
base_text = b'x' ∷ 10 ∷ b'y' ∷ 10 ∷ []

abbrev a_text : Bytes
a_text = b'X' ∷ 10 ∷ b'y' ∷ 10 ∷ []

abbrev b_text : Bytes
b_text = b'x' ∷ 10 ∷ b'Y' ∷ 10 ∷ []

abbrev base_id : VersionId
base_id = record { peer = peer_a; sequence = 1; authenticator = none }

abbrev shared_base : BaseVersion
shared_base = record { id = base_id; entry = file base_text 4 false; authenticator = none }

abbrev edited : Bytes → ℕ → Bytes → Record
edited peer at text = record {
  path = b'f' ∷ [];
  version = record {
    peer = peer;
    sequence = 2;
    id_authenticator = none;
    timestamp_ns = pos at;
    seen = base_id ∷ [];
    merge_base = some shared_base;
    version_authenticator = none;
    base_authenticator = none;
    entry = file text 4 false;
  };
}

abbrev a_record : Record
a_record = edited peer_a 7 a_text

abbrev b_record : Record
b_record = edited peer_b 9 b_text

abbrev candidate : MergeCandidate
candidate = record { path = b'f' ∷ []; base = shared_base; winner = b_record; loser = a_record }

abbrev merged_text : ComputedMerge
merged_text = record {
  bytes = b'X' ∷ 10 ∷ b'Y' ∷ 10 ∷ [];
  hash = b'X' ∷ 10 ∷ b'Y' ∷ 10 ∷ [];
  executable = false;
  hunks = [];
}

compute_merge_outcomes-AreWithin_example :
    Returns
      (AreWithin (candidate ∷ []))
      (compute_merge_outcomes read_named named whole_diff (candidate ∷ []))
compute_merge_outcomes-AreWithin_example =
    compute_merge_outcomes-AreWithin read_named named whole_diff whole_diff-IsDiff (candidate ∷ [])

merged_record-has_seen_example :
    has_seen
      (merged_record seal_id seal_base seal_version peer_a 3 candidate merged_text).version
      (version_id b_record.version)
    ≡ true
unfolding has_seen VersionId-discrete Bytes-discrete ℕ_discrete
merged_record-has_seen_example =
    merged_record-has_seen seal_id seal_base seal_version peer_a 3 candidate merged_text
      (version_id b_record.version) refl

abbrev both_plan : Plan
both_plan = reconcile (a_record ∷ []) (b_record ∷ [])

abbrev peer_plan : Plan
peer_plan = reconcile (b_record ∷ []) (a_record ∷ [])

abbrev share : Share
share = record { sequence = 2; accepts = λ n contents. leb n 3; generated = [] }

abbrev proposed_plan : Plan
proposed_plan = record {
  records = merged_record seal_id seal_base seal_version peer_a 3 candidate merged_text ∷ [];
  conflicts = [];
  merges = candidate ∷ [];
}

abbrev expected_plan : Plan
expected_plan = record { records = b_record ∷ []; conflicts = []; merges = candidate ∷ [] }

proposed_accepted : validate_materialized_plan_shape proposed_plan expected_plan peer_a ≡ ok tt
unfolding version_tag validate_materialized_plan_shape check_records check_record check_merged
    check_candidates check_outcomes conflicts_at find_candidate greatest_sequence greatest_of
    greatest_of_candidates merges-discrete ordinary_conflicts conflicts-discrete base-discrete
    permitted_record merged_record authenticate_record remember_version remember_all remember_one
    sort_by insert_by keep by_path by_path_onto insert get cmp_bytes cmp_int Bytes-discrete
    ℕ_discrete Record-discrete Version-discrete VersionId-discrete Entry-discrete
    BaseVersion-discrete
proposed_accepted = refl

validate_shape-IsKept_example :
    (proposed_plan.merges ≡ expected_plan.merges)
    × ((ms : List Record) × AreKept proposed_plan expected_plan peer_a expected_plan.records ms
        × AreDistinct ms
        × All (λ q. size_of q.version.entry ≤ max_output_bytes) ms
        × (total_size ms ≤ max_round_bytes))
    × (length proposed_plan.records ≡ length expected_plan.records)
    × ((p : Bytes)
        → Any (λ c. c.path ≡ p) expected_plan.merges
          ⊎ (conflicts_of p proposed_plan.conflicts ≡ conflicts_of p expected_plan.conflicts))
    × All (λ c. IsOutcome c (conflicts_of c.path proposed_plan.conflicts)) expected_plan.merges
validate_shape-IsKept_example =
    validate_shape-IsKept proposed_plan expected_plan peer_a proposed_accepted
