-- ===== src/Session/Deferral.antt =====
-- src/main.rs: what a round does about paths that changed under an earlier attempt: they are
-- deferred, and both sides keep what they have there. A `RelativePath` is normalized, so that its
-- parents as a `Path` are its prefixes before a slash; sets of paths are lists.
pub mod Mixed
pub mod Parents
pub mod Tree
mod Tests
use file_local.Prelude.{
  ℕ, Bool, true, false, not, Option, none, some, List, [], ◌∷◌, ◌++◌, ◌||◌, ◌&&◌, ◌==◌, any, keep,
  map, is_empty, if◌then◌else◌,
}
use file_local.Prelude.Sort.{sort_by}
use file_local.Prelude.Sorted.{get}
use file_local.Model.{Bytes, Entry, Record, directory, file, symlink, tombstone}
use file_local.Model.FilePath.{slash}
use file_local.Reconcile.{Plan, by_path}
use file_local.Reconcile.Coverage.{record_paths}
use file_local.Sync.Materialize.{is_path}

pub record InvalidationCycle : Type 0 where
  pub retried : Bool
  pub first_path : Option Bytes
  pub deferred : List Bytes

abbrev pub new_cycle : InvalidationCycle
new_cycle = record { retried = false; first_path = none; deferred = [] }

pub data InvalidationAction : Type 0 where
  recalculate : InvalidationAction
  deferring : (same_path : Bool) → InvalidationAction

abbrev pub is_first : Option Bytes → Bytes → Bool
is_first none p = false
is_first (some first) p = is_path p first

unfoldable pub observe : InvalidationCycle → Bytes → InvalidationCycle × InvalidationAction
observe cycle p =
    if cycle.retried
    then (record cycle { deferred = p ∷ cycle.deferred }, deferring (is_first cycle.first_path p))
    else (record cycle { retried = true; first_path = some p }, recalculate)

-- The parents of a path, the shortest one first.
unfoldable pub parents : Bytes → List Bytes
parents [] = []
parents (c ∷ cs) =
    let rest = map (λ p. c ∷ p) (parents cs) in if c == slash then [] ∷ rest else rest

abbrev is_directory : Entry → Bool
is_directory directory = true
is_directory (file hash size executable) = false
is_directory (symlink target) = false
is_directory tombstone = false

-- `is_some_and(|record| matches!(record.version.entry, Entry::Directory))`.
abbrev pub is_folder : Option Record → Bool
is_folder none = false
is_folder (some r) = is_directory r.version.entry

-- A directory on both sides and in the plan.
unfoldable pub is_stable : List Record → List Record → List Record → Bytes → Bool
is_stable side other target p =
    is_folder (get p (by_path side))
    && is_folder (get p (by_path other))
    && is_folder (get p (by_path target))

-- The loop over the parents, the longest one first: the last assignment to `root` stays.
unfoldable pub root_from : (Bytes → Bool) → Bytes → List Bytes → Bytes
root_from stable seed [] = seed
root_from stable seed (p ∷ ps) = let root = root_from stable seed ps in if stable p then root else p

unfoldable pub roots : (Bytes → Bool) → List Bytes → List Bytes
roots stable seeds = map (λ seed. root_from stable seed (parents seed)) seeds

-- `path.ancestors().any(|ancestor| roots.contains(ancestor))`.
unfoldable pub is_deferred : List Bytes → Bytes → Bool
is_deferred rs p = any (λ ancestor. any (λ root. is_path ancestor root) rs) (p ∷ parents p)

pub record EffectivePlan : Type 0 where
  pub plan : Plan
  pub retained_paths : List Bytes

-- The part after the roots.
unfoldable pub mix : List Bytes → List Record → Plan → EffectivePlan
mix rs side full = record {
  plan = record {
    records =
        sort_by (λ r. r.path)
          (keep (λ r. not (is_deferred rs r.path)) full.records
            ++ keep (λ r. is_deferred rs r.path) side);
    conflicts = keep (λ c. not (is_deferred rs c.path)) full.conflicts;
    merges = keep (λ c. not (is_deferred rs c.path)) full.merges;
  };
  retained_paths = record_paths (keep (λ r. is_deferred rs r.path) side);
}

unfoldable pub effective_plan : List Record → List Record → Plan → List Bytes → EffectivePlan
effective_plan side other full deferred =
    if is_empty deferred
    then record { plan = full; retained_paths = [] }
    else mix (roots (is_stable side other full.records) deferred) side full

unfoldable pub accepts_invalidation : EffectivePlan → Bytes → Bool
accepts_invalidation effective p =
    any (λ r. is_path p r.path) effective.plan.records
    && not (any (is_path p) effective.retained_paths)
