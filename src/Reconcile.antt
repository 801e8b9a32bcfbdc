-- ===== src/Reconcile.antt =====
-- src/reconcile.rs: the plan that two endpoints make of their records.
pub mod Symmetry
pub mod Coverage
pub mod Choice
pub mod Losses
pub mod Convergence
pub mod Pointwise
mod Tests
use file_local.Prelude.{
  ℕ, Bool, true, false, Option, none, some, List, [], ◌∷◌, ◌++◌, compare, Ordering, ◌||◌, ◌&&◌,
  if◌then◌else◌, holds, ◌-◌,
}
use file_local.Prelude.Order.{cmp_bytes, then_with, is_le, is_ge, is_gt}
use file_local.Prelude.Sorted.{insert, get, keys, insert_keys}
use file_local.Merge.Types.{FallbackReason, absent_base, unequal_base, ConflictHunk}
use file_local.Model.{
  Bytes, BaseVersion, BaseVersion-discrete, Entry-discrete, Record, VersionId, VersionId-discrete,
  as_base, has_seen, is_file, lww_cmp, version_id,
}

pub data ConflictResolution : Type 0 where
  merged_with_overlaps : ConflictResolution
  whole_file : (winner : ℕ) (reason : FallbackReason) → ConflictResolution
  destructive : (winner : ℕ) → ConflictResolution

pub record Conflict : Type 0 where
  pub path : Bytes
  pub resolution : ConflictResolution
  pub base : Option BaseVersion
  pub inputs : Record × Record
  pub merged : Option Record
  pub hunks : List ConflictHunk

pub record MergeCandidate : Type 0 where
  pub path : Bytes
  pub base : BaseVersion
  pub winner : Record
  pub loser : Record

pub record Plan : Type 0 where
  pub records : List Record
  pub conflicts : List Conflict
  pub merges : List MergeCandidate

-- `compare_ids`.
unfoldable pub compare_ids : VersionId → VersionId → Ordering
unfolding cmp_bytes
compare_ids a b = then_with (cmp_bytes a.peer b.peer) (compare a.sequence b.sequence)

-- `canonical_inputs`: the two inputs in the order of their ids, and the place of the first one.
unfoldable pub canonical_inputs : Record → Record → (Record × Record) × ℕ
unfolding compare_ids
canonical_inputs a b =
    if is_le (compare_ids (version_id a.version) (version_id b.version))
    then ((a, b), 0)
    else ((b, a), 1)

-- `Conflict::whole_file`, `Conflict::destructive` and `Conflict::merged`.
unfoldable pub whole_file_conflict : Record → Record → FallbackReason → Conflict
unfolding canonical_inputs
whole_file_conflict winner loser reason =
    let (inputs, index) = canonical_inputs winner loser in
    record {
      path = winner.path;
      resolution = whole_file index reason;
      base = none;
      inputs = inputs;
      merged = none;
      hunks = [];
    }

unfoldable pub destructive_conflict : Record → Record → Conflict
unfolding canonical_inputs
destructive_conflict winner loser =
    let (inputs, index) = canonical_inputs winner loser in
    record {
      path = winner.path;
      resolution = destructive index;
      base = none;
      inputs = inputs;
      merged = none;
      hunks = [];
    }

unfoldable pub merged_conflict :
    BaseVersion → Record → Record → Record → List ConflictHunk → Conflict
unfolding canonical_inputs
merged_conflict base winner loser merged hunks =
    let (inputs, _) = canonical_inputs winner loser in
    record {
      path = winner.path;
      resolution = merged_with_overlaps;
      base = some base;
      inputs = inputs;
      merged = some merged;
      hunks = hunks;
    }

-- `inputs[index]`; the code only uses 0 and 1.
abbrev pub input : Record × Record → ℕ → Record
input (a, b) ℕ.zero = a
input (a, b) (ℕ.suc i) = b

unfoldable pub winner_index_of : ConflictResolution → Record × Record → ℕ
winner_index_of (whole_file winner reason) inputs = winner
winner_index_of (destructive winner) inputs = winner
winner_index_of merged_with_overlaps (a, b) = if is_gt (lww_cmp b.version a.version) then 1 else 0

unfoldable pub winner_index : Conflict → ℕ
winner_index c = winner_index_of c.resolution c.inputs

unfoldable pub conflict_winner : Conflict → Record
conflict_winner c = elim c.merged [ some r ↦ r | none ↦ input c.inputs (winner_index c) ]

unfoldable pub conflict_loser : Conflict → Record
conflict_loser c = input c.inputs (1 - winner_index c)

abbrev pub only : Record → Plan
only r = record { records = r ∷ []; conflicts = []; merges = [] }

-- The bases of two files agree and both versions have seen the base.
abbrev shared_base : Record → Record → Option BaseVersion → Option BaseVersion → Option BaseVersion
shared_base winner loser (some base) (some other) =
    if holds (BaseVersion-discrete base other)
      && has_seen winner.version base.id
      && has_seen loser.version base.id
    then some base
    else none
shared_base winner loser none base = none
shared_base winner loser (some base) none = none

abbrev fallback : Option BaseVersion → Option BaseVersion → FallbackReason
fallback none base = absent_base
fallback (some base) none = absent_base
fallback (some base) (some other) = unequal_base

-- The branch for two files: a merge candidate, or a conflict over the whole file.
unfoldable pub merge_files : Record → Record → Plan
merge_files winner loser =
    elim (shared_base winner loser winner.version.merge_base loser.version.merge_base) [
      | some base ↦ record {
        records = winner ∷ [];
        conflicts = [];
        merges = record { path = winner.path; base = base; winner = winner; loser = loser } ∷ [];
      }
      | none ↦ record {
        records = winner ∷ [];
        conflicts =
            whole_file_conflict winner loser
              (fallback winner.version.merge_base loser.version.merge_base)
            ∷ [];
        merges = [];
      }
    ]

-- The branch for concurrent versions with different entries, its winner chosen.
unfoldable pub resolve : Record → Record → Plan
resolve winner loser =
    if is_file winner.version.entry && is_file loser.version.entry
    then merge_files winner loser
    else if is_file winner.version.entry || is_file loser.version.entry
    then record {
      records = winner ∷ [];
      conflicts = destructive_conflict winner loser ∷ [];
      merges = [];
    }
    else only winner

-- The arms of the `match` for a path that both sides have.
unfoldable pub both : Record → Record → Plan
both a b =
    if holds (VersionId-discrete (version_id a.version) (version_id b.version))
    then only a
    else if has_seen a.version (version_id b.version)
    then only a
    else if has_seen b.version (version_id a.version)
    then only b
    else if holds (Entry-discrete a.version.entry b.version.entry)
    then (if is_ge (lww_cmp a.version b.version) then only a else only b)
    else (if is_ge (lww_cmp a.version b.version) then resolve a b else resolve b a)

-- What the loop pushes for one path. The last arm is `unreachable!()`: a path comes from one of the
-- two maps.
unfoldable pub at_path : Option Record → Option Record → Plan
at_path (some a) (some b) = both a b
at_path (some a) none = only a
at_path none (some b) = only b
at_path none none = record { records = []; conflicts = []; merges = [] }

abbrev pub join : Plan → Plan → Plan
join p q = record {
  records = p.records ++ q.records;
  conflicts = p.conflicts ++ q.conflicts;
  merges = p.merges ++ q.merges;
}

-- `iter().map(|r| (r.path.as_bytes(), r)).collect::<BTreeMap<_, _>>()`.
unfoldable pub by_path_onto : List (Bytes × Record) → List Record → List (Bytes × Record)
by_path_onto m [] = m
by_path_onto m (r ∷ rs) = by_path_onto (insert r.path r m) rs

unfoldable pub by_path : List Record → List (Bytes × Record)
by_path rs = by_path_onto [] rs

-- The paths of either side, in order.
unfoldable pub paths : List Record → List Record → List Bytes
paths local remote = insert_keys (keys (by_path remote)) (insert_keys (keys (by_path local)) [])

-- The loop over the paths.
unfoldable pub plan_of : List (Bytes × Record) → List (Bytes × Record) → List Bytes → Plan
plan_of local remote [] = record { records = []; conflicts = []; merges = [] }
plan_of local remote (p ∷ ps) =
    join (at_path (get p local) (get p remote)) (plan_of local remote ps)

unfoldable pub reconcile : List Record → List Record → Plan
reconcile local remote = plan_of (by_path local) (by_path remote) (paths local remote)
