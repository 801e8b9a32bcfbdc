-- ===== src/Sync/Materialize/Shape.antt =====
-- src/sync.rs: `validate_materialized_plan_shape`, by which a peer checks what the connector changed
-- in the plan before it computes any merge.
pub mod Conflicts
pub mod Merged
pub mod Sound
use file_local.Prelude.{
  saturating_add, ℕ, suc, ◌+◌, ◌≡◌, ◌≢◌, refl, sym, ◌∙◌, ap, Bool, true, false, not, Option, none,
  some, List, [], ◌∷◌, ◌++◌, ◌||◌, ◌&&◌, arith, any, keep, if◌then◌else◌, is_empty, length, holds,
  leb, ltb, max, min, ◌^◌, ◌-◌, ◌==◌, ℕ_discrete, drop,
}
use file_local.Prelude.Results.{Result, ok, err, ◌>>=◌, ◌>>◌, guard, ok_or}
use file_local.Model.{
  BaseVersion, BaseVersion-discrete, Bytes, Bytes-discrete, Entry, Record, Record-discrete, Version,
  file, directory, symlink, tombstone,
}
use file_local.Merge.Types.{max_output_bytes}
use file_local.Prelude.Sorted.{get}
use file_local.Reconcile.{
  by_path, Conflict, ConflictResolution, MergeCandidate, Plan, destructive, merged_with_overlaps,
  whole_file,
}
use file_local.Sync.Outcomes.{
  PlanError, differs, file_parts, max_round_bytes, missing_record, not_a_file,
}
use file_local.Sync.Materialize.{conflicts-discrete, conflicts_at, is_path, max_int}
use file_local.Sync.Seen.{remember_version}

unfoldable pub merges-discrete : Discrete (List MergeCandidate)
merges-discrete = hlevel (Record-discrete, BaseVersion-discrete, Bytes-discrete)

abbrev pub is_candidate_path : List MergeCandidate → Bytes → Bool
is_candidate_path cs p = any (λ c. is_path p c.path) cs

-- `iter().find(|candidate| candidate.path == record.path)`.
unfoldable pub find_candidate : Bytes → List MergeCandidate → Option MergeCandidate
find_candidate p [] = none
find_candidate p (c ∷ cs) =
    let rest = find_candidate p cs in if is_path p c.path then some c else rest

abbrev pub connector_sequence : Bytes → Record → ℕ
connector_sequence connector r =
    if holds (Bytes-discrete r.version.peer connector) then r.version.sequence else 0

unfoldable pub greatest_of : Bytes → List Record → ℕ
greatest_of connector [] = 0
greatest_of connector (r ∷ rs) = max (connector_sequence connector r) (greatest_of connector rs)

unfoldable pub greatest_of_candidates : Bytes → List MergeCandidate → ℕ
greatest_of_candidates connector [] = 0
greatest_of_candidates connector (c ∷ cs) =
    max (max (connector_sequence connector c.winner) (connector_sequence connector c.loser))
      (greatest_of_candidates connector cs)

-- `greatest_connector_sequence`.
unfoldable pub greatest_sequence : Bytes → Plan → ℕ
greatest_sequence connector expected =
    max (greatest_of connector expected.records) (greatest_of_candidates connector expected.merges)

abbrev pub is_whole_file : ConflictResolution → Bool
is_whole_file (whole_file winner reason) = true
is_whole_file (destructive winner) = false
is_whole_file merged_with_overlaps = false

abbrev is_none : Option Bytes → Bool
is_none none = true
is_none (some x) = false

-- `permitted`: the record that the candidate may become, with the fields that the connector chooses.
unfoldable pub permitted_record : Bytes → MergeCandidate → Record → Record
permitted_record connector c proposed = record (c.winner) {
  version = record {
    peer = connector;
    sequence = proposed.version.sequence;
    id_authenticator = proposed.version.id_authenticator;
    timestamp_ns = max_int c.winner.version.timestamp_ns c.loser.version.timestamp_ns;
    seen = remember_version (remember_version [] c.winner.version) c.loser.version;
    merge_base = some c.base;
    version_authenticator = proposed.version.version_authenticator;
    base_authenticator = proposed.version.base_authenticator;
    entry = proposed.version.entry;
  };
}

-- The local variables of the loop: the sequences of the merges and the bytes so far.
pub record ShapeState : Type 0 where
  pub sequences : List ℕ
  pub merged_bytes : ℕ

-- The checks of a merge's record, from its fields on.
abbrev pub same_mode : Bool → Bool → Bool
same_mode true b = b
same_mode false b = not b

unfoldable pub check_merged :
    Bytes → ℕ → ShapeState → MergeCandidate → Record → Result ShapeState PlanError
check_merged connector greatest st c proposed = do
  parts ← file_parts proposed.version.entry
  winner_parts ← file_parts c.winner.version.entry
  guard (same_mode parts.2 winner_parts.2) differs
  guard (holds (Record-discrete proposed (permitted_record connector c proposed))) differs
  let total = saturating_add st.merged_bytes parts.1
  guard
      (not (
        leb proposed.version.sequence greatest
        || any (λ n. n == proposed.version.sequence) st.sequences
        || is_none proposed.version.id_authenticator
        || is_none proposed.version.version_authenticator
        || is_none proposed.version.base_authenticator
        || ltb max_output_bytes parts.1
        || ltb max_round_bytes total))
      differs
  ok (record { sequences = proposed.version.sequence ∷ st.sequences; merged_bytes = total })

-- The body of the loop over the expected records.
unfoldable pub check_record :
    Plan → Plan → Bytes → ShapeState → Record → Result ShapeState PlanError
check_record proposed expected connector st r = do
  result ← ok_or (get r.path (by_path proposed.records)) missing_record
  elim (find_candidate r.path expected.merges) [
    | none ↦ (do guard (holds (Record-discrete result r)) differs; ok st)
    | some c ↦
        if any (λ k. is_path r.path k.path && is_whole_file k.resolution) proposed.conflicts
        then (do guard (holds (Record-discrete result c.winner)) differs; ok st)
        else check_merged connector (greatest_sequence connector expected) st c result
  ]

unfoldable pub check_records :
    Plan → Plan → Bytes → ShapeState → List Record → Result (Unit {0}) PlanError
check_records proposed expected connector st [] = ok tt
check_records proposed expected connector st (r ∷ rs) = do
  st' ← check_record proposed expected connector st r
  check_records proposed expected connector st' rs

-- The conflicts that belong to no candidate.
unfoldable pub ordinary_conflicts : List MergeCandidate → List Conflict → List Conflict
ordinary_conflicts cs conflicts = keep (λ k. not (is_candidate_path cs k.path)) conflicts

abbrev pub contains : Record × Record → Record → Bool
contains (a, b) r = holds (Record-discrete a r) || holds (Record-discrete b r)

unfoldable pub base-discrete : Discrete (Option BaseVersion)
base-discrete = hlevel (BaseVersion-discrete)

-- The conflicts at a candidate's path: at most one, with the candidate's base and inputs.
unfoldable pub check_outcomes : MergeCandidate → List Conflict → Result (Unit {0}) PlanError
check_outcomes c [] = ok tt
check_outcomes c (k ∷ []) =
    guard
      (holds (base-discrete k.base (some c.base))
        && contains k.inputs c.winner
        && contains k.inputs c.loser)
      differs
check_outcomes c (k ∷ l ∷ ks) = err differs

unfoldable pub check_candidates : Plan → List MergeCandidate → Result (Unit {0}) PlanError
check_candidates proposed [] = ok tt
check_candidates proposed (c ∷ cs) = do
  check_outcomes c (conflicts_at c.path proposed.conflicts)
  check_candidates proposed cs

unfoldable pub validate_materialized_plan_shape : Plan → Plan → Bytes → Result (Unit {0}) PlanError
validate_materialized_plan_shape proposed expected connector = do
  guard (holds (merges-discrete proposed.merges expected.merges)) differs
  check_records proposed expected connector (record { sequences = []; merged_bytes = 0 })
      expected.records
  guard (length proposed.records == length expected.records) differs
  guard
      (holds (
        conflicts-discrete (ordinary_conflicts expected.merges proposed.conflicts)
          (ordinary_conflicts expected.merges expected.conflicts)))
      differs
  check_candidates proposed expected.merges
