-- ===== src/Merge/Types.antt =====
-- src/merge.rs: the limits and the data of a three-way merge.
use file_local.Prelude.{ℕ, ◌*◌, List, Bool}
use file_local.Model.{Bytes}

abbrev pub max_input_bytes : ℕ
max_input_bytes = 256 * 1024

abbrev pub max_input_lines : ℕ
max_input_lines = 4096

abbrev pub max_work : ℕ
max_work = 8_000_000

abbrev pub max_hunks : ℕ
max_hunks = 1024

abbrev pub max_output_bytes : ℕ
max_output_bytes = 512 * 1024

pub data FallbackReason : Type 0 where
  absent_base unequal_base incompatible_kind legacy invalid_utf8 contains_nul : FallbackReason
  input_bytes input_lines comparison_work too_many_hunks output_bytes : FallbackReason
  round_merge_budget : FallbackReason

-- `std::ops::Range<usize>`.
pub record Range : Type 0 where
  pub start : ℕ
  pub end : ℕ

pub record ConflictHunk : Type 0 where
  pub base : Range
  pub a : Range
  pub b : Range

pub record MergeResult : Type 0 where
  pub bytes : Bytes
  pub hunks : List ConflictHunk

pub record Edit : Type 0 where
  pub base : Range
  pub side : Range

-- How a merge ends without a result: with a reason to fall back to a whole-file conflict, or by a
-- panic of the code, or because a loop of the model has no fuel left.
pub data Failure : Type 0 where
  fallback : FallbackReason → Failure
  panicked out_of_fuel : Failure

-- `capture_diff_slices` of the `similar` crate gives operations, of which the code sees whether one
-- is `DiffOp::Equal` and its old and new ranges.
pub record DiffOp : Type 0 where
  pub is_equal : Bool
  pub old_range : Range
  pub new_range : Range
