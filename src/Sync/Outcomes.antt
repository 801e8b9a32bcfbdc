-- ===== src/Sync/Outcomes.antt =====
-- src/sync.rs: `compute_merge_outcomes`, which merges the candidates of a round within the round's
-- budget. The contents of an object, the hash of a content and the diff are parameters.
pub mod Budget
use file_local.Prelude.{
  ℕ, zero, suc, ◌+◌, ◌*◌, Bool, true, false, not, Option, none, some, List, [], ◌∷◌, ◌||◌, ltb, leb,
  if◌then◌else◌, length, arith, Ordering,
}
use file_local.Prelude.Order.{cmp_bytes, is_ge}
use file_local.Prelude.Results.{Result, ok, err, ◌>>=◌, ◌>>◌, guard, ok_or}
use file_local.Model.{Bytes, Entry, file, directory, symlink, tombstone, Record}
use file_local.Merge.Types.{
  ConflictHunk, DiffOp, Failure, FallbackReason, MergeResult, comparison_work as too_much_work,
  fallback, input_bytes, max_input_bytes, max_work, round_merge_budget,
}
use file_local.Merge.{checked_add, comparison_work, merge}
use file_local.Reconcile.{MergeCandidate}

abbrev pub max_candidates : ℕ
max_candidates = 64

abbrev pub max_round_work : ℕ
max_round_work = 32_000_000

abbrev pub max_round_hunks : ℕ
max_round_hunks = 4096

abbrev pub max_round_bytes : ℕ
max_round_bytes = 2 * 1024 * 1024

-- `crashed` is a failure that is no reason to fall back.
pub data PlanError : Type 0 where
  out_of_order not_a_file unreadable missing_record differs store_failed : PlanError
  crashed : Failure → PlanError

pub record ComputedMerge : Type 0 where
  pub bytes : Bytes
  pub hash : Bytes
  pub executable : Bool
  pub hunks : List ConflictHunk

abbrev pub Outcome : Type 0
Outcome = Result ComputedMerge FallbackReason

pub record MergeInput : Type 0 where
  pub base : Bytes
  pub winner : Bytes
  pub loser : Bytes
  pub executable : Bool

-- The local variables of the loop.
pub record RoundMerges : Type 0 where
  pub work : ℕ
  pub hunks : ℕ
  pub output : ℕ
  pub exhausted : Bool

abbrev pub unspent : RoundMerges
unspent = record { work = 0; hunks = 0; output = 0; exhausted = false }

-- `windows(2).any(..)` is false.
unfoldable pub in_path_order : List MergeCandidate → Bool
in_path_order [] = true
in_path_order (c ∷ []) = true
in_path_order (c ∷ d ∷ cs) =
    let rest = in_path_order (d ∷ cs) in if is_ge (cmp_bytes c.path d.path) then false else rest

-- The hash, the size and the mode of a file.
abbrev pub file_parts : Entry → Result (Bytes × ℕ × Bool) PlanError
file_parts (file hash size executable) = ok (hash, size, executable)
file_parts directory = err not_a_file
file_parts (symlink target) = err not_a_file
file_parts tombstone = err not_a_file

unfoldable pub candidate_file_sizes : MergeCandidate → Result (ℕ × ℕ × ℕ) PlanError
candidate_file_sizes c = do
  base ← file_parts c.base.entry
  winner ← file_parts c.winner.version.entry
  loser ← file_parts c.loser.version.entry
  ok (base.1, winner.1, loser.1)

-- `into_iter().any(|size| size > MAX_INPUT_BYTES)`.
abbrev pub is_oversized : ℕ × ℕ × ℕ → Bool
is_oversized (base, winner, loser) =
    ltb max_input_bytes base || ltb max_input_bytes winner || ltb max_input_bytes loser

-- `checked_add(..).is_none_or(|total| total > limit)`.
abbrev pub overspends : ℕ → ℕ → ℕ → Bool
overspends spent more limit = elim (checked_add spent more) [
  | none ↦ true
  | some total ↦ ltb limit total
]

abbrev exhaust : RoundMerges → Result (Outcome × RoundMerges) PlanError
exhaust b = ok (err round_merge_budget, record b { exhausted = true })

module _ (read : Bytes → Option Bytes) (blake3 : Bytes → Bytes)
    (diff : List Bytes → List Bytes → List DiffOp) where
  unfoldable pub read_candidate : MergeCandidate → Result MergeInput PlanError
  read_candidate c = do
    base ← file_parts c.base.entry
    winner ← file_parts c.winner.version.entry
    loser ← file_parts c.loser.version.entry
    base_bytes ← ok_or (read base.0) unreadable
    winner_bytes ← ok_or (read winner.0) unreadable
    loser_bytes ← ok_or (read loser.0) unreadable
    ok (record {
      base = base_bytes;
      winner = winner_bytes;
      loser = loser_bytes;
      executable = winner.2;
    })

  -- The end of the loop's body, with the merge's result.
  unfoldable pub spend_output :
      RoundMerges
      → MergeInput
      → Result MergeResult Failure
      → Result (Outcome × RoundMerges) PlanError
  spend_output b i (err (fallback reason)) = ok (err reason, b)
  spend_output b i (err failure) = err (crashed failure)
  spend_output b i (ok merged) =
      if overspends b.hunks (length merged.hunks) max_round_hunks
        || overspends b.output (length merged.bytes) max_round_bytes
      then exhaust b
      else ok (
        ok (record {
          bytes = merged.bytes;
          hash = blake3 merged.bytes;
          executable = i.executable;
          hunks = merged.hunks;
        }),
        record b { hunks = b.hunks + length merged.hunks; output = b.output + length merged.bytes },
      )

  -- The middle of the loop's body, with the work of the comparison.
  unfoldable pub spend_work :
      RoundMerges → MergeInput → Result ℕ Failure → Result (Outcome × RoundMerges) PlanError
  unfolding spend_output
  spend_work b i (err (fallback reason)) = ok (err reason, b)
  spend_work b i (err failure) = err (crashed failure)
  spend_work b i (ok work) =
      if not (leb work max_work)
      then ok (err too_much_work, b)
      else if overspends b.work work max_round_work
      then exhaust b
      else spend_output (record b { work = b.work + work }) i
          (merge diff i.base i.winner i.loser true)

  -- The body of the loop for one candidate.
  unfoldable pub outcome_of :
      ℕ → RoundMerges → MergeCandidate → Result (Outcome × RoundMerges) PlanError
  unfolding spend_work candidate_file_sizes read_candidate
  outcome_of index b c = if b.exhausted || leb max_candidates index then exhaust b else (do
    sizes ← candidate_file_sizes c
    (if is_oversized sizes
        then ok (err input_bytes, b)
        else do i ← read_candidate c; spend_work b i (comparison_work i.base i.winner i.loser)))

  unfoldable pub outcomes_loop :
      ℕ → RoundMerges → List MergeCandidate → Result (List Outcome) PlanError
  outcomes_loop index b [] = ok []
  outcomes_loop index b (c ∷ cs) = do
    r ← outcome_of index b c
    outcomes ← outcomes_loop (suc index) r.1 cs
    ok (r.0 ∷ outcomes)

  unfoldable pub compute_merge_outcomes : List MergeCandidate → Result (List Outcome) PlanError
  compute_merge_outcomes cs = do guard (in_path_order cs) out_of_order; outcomes_loop 0 unspent cs
