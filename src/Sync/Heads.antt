-- ===== src/Sync/Heads.antt =====
-- src/sync.rs: the heads that both peers hold after a round. The connector computes them by
-- `intersect_heads`; `validate_ack_heads` is the check of heads that were received. `RelativePath`s are compared by bytes.
pub mod Lookup
pub mod InOrder
pub mod Agreement
mod Tests
use file_local.Prelude.{
  ◌≡◌, refl, Bool, true, false, not, Option, none, some, List, [], ◌∷◌, ◌||◌, ◌&&◌, any, keep,
  holds, if◌then◌else◌,
}
use file_local.Prelude.Results.{Result, ok, err, ◌>>=◌, ◌>>◌, guard}
use file_local.Prelude.Sort.{sort_by}
use file_local.Prelude.Sorted.{get}
use file_local.Model.{Bytes, Record, Record-discrete, is_file}
use file_local.Reconcile.{by_path}
use file_local.Sync.Materialize.{is_path}

pub data HeadError : Type 0 where
  duplicate_paths not_canonical not_current : HeadError

unfoldable pub regular_file_heads : List Record → List Record
regular_file_heads records = sort_by (λ r. r.path) (keep (λ r. is_file r.version.entry) records)

-- The loop of `validate_unique_paths`, with the set of the paths so far.
unfoldable pub are_unique : List Bytes → List Record → Bool
are_unique seen [] = true
are_unique seen (r ∷ rs) =
    let rest = are_unique (r.path ∷ seen) rs in if any (is_path r.path) seen then false else rest

unfoldable pub validate_unique_paths : List Record → Result (Unit {0}) HeadError
validate_unique_paths records = guard (are_unique [] records) duplicate_paths

unfoldable pub current-discrete : Discrete (Option Record)
current-discrete = hlevel (Record-discrete)

-- `map.get(path) == Some(&record)`, for the map of these records by their paths.
unfoldable pub is_current : List Record → Record → Bool
is_current records r = holds (current-discrete (get r.path (by_path records)) (some r))

unfoldable pub intersect_heads : List Record → List Record → Result (List Record) HeadError
intersect_heads local remote = do
  validate_unique_paths local
  validate_unique_paths remote
  ok (keep (is_current remote) (regular_file_heads local))

-- `windows(2).any(..)`.
unfoldable pub repeats_path : List Record → Bool
repeats_path [] = false
repeats_path (r ∷ []) = false
repeats_path (r ∷ s ∷ rs) = let rest = repeats_path (s ∷ rs) in is_path r.path s.path || rest

unfoldable pub records-discrete : Discrete (List Record)
records-discrete = hlevel (Record-discrete)

unfoldable pub validate_ack_heads : List Record → List Record → Result (Unit {0}) HeadError
validate_ack_heads current proposed = do
  guard
      (holds (records-discrete (regular_file_heads proposed) proposed)
        && not (repeats_path proposed))
      not_canonical
  guard (not (any (λ r. not (is_current current r)) proposed)) not_current
