-- ===== src/Merge/Tests.antt =====
-- Runs of the merge with a diff that replaces one list by the other, and its theorems at concrete
-- data.
use file_local.Prelude.{◌≡◌, refl, true, false, List, [], ◌∷◌, arith, length, ℕ_discrete}
use file_local.Prelude.Results.{ok}
use file_local.Model.{Bytes, Bytes-discrete}
use file_local.Merge.Types.{DiffOp, Edit, Range}
use file_local.Merge.{
  append, append_bytes, compose, compose_loop, edits, edits_of, changed_lines, op_edits, slice,
  grow, absorb, joins, emit, append_rendered, render, render_loop, overlap, settle, write,
  write_hunk, push_hunk, side_span, last_end, flatten, merge, merge_lines, comparison_work,
  comparison_work_for_lines, check_input,
}
use file_local.Merge.Text.{lines, lines_loop, is_utf8}
use file_local.Merge.Lines.{AreLines, concat, concat-lines}
use file_local.Merge.Bounds.{Ensures, IsBounded, merge-IsBounded}
use file_local.Merge.Grouping.{Safe}
use file_local.Merge.Patch.{IsDiff}
use file_local.Merge.Render.{capped, render-edits}
use file_local.Merge.Steps.{Anything}
use file_local.Merge.Safety.{compose-Safe, merge-Safe}

-- The diff that replaces the whole of one list by the other.
abbrev whole_diff : List Bytes → List Bytes → List DiffOp
whole_diff old new =
    record {
      is_equal = false;
      old_range = record { start = 0; end = length old };
      new_range = record { start = 0; end = length new };
    }
    ∷ []

whole_diff-IsDiff : (old new : List Bytes) → IsDiff old new 0 0 (whole_diff old new)
whole_diff-IsDiff old new = (refl, refl, omega arith, omega arith, λ e. cc, (refl, refl))

abbrev base_text : Bytes
base_text = b'a' ∷ 10 ∷ b'b' ∷ 10 ∷ b'c' ∷ 10 ∷ []

abbrev a_text : Bytes
a_text = b'A' ∷ 10 ∷ b'b' ∷ 10 ∷ b'c' ∷ 10 ∷ []

abbrev b_text : Bytes
b_text = b'a' ∷ 10 ∷ b'b' ∷ 10 ∷ b'C' ∷ 10 ∷ []

abbrev c_text : Bytes
c_text = b'X' ∷ 10 ∷ b'b' ∷ 10 ∷ b'c' ∷ 10 ∷ []

-- Changes of different lines are combined.
combined :
    merge whole_diff base_text a_text b_text true
    ≡ ok (record { bytes = b'A' ∷ 10 ∷ b'b' ∷ 10 ∷ b'C' ∷ 10 ∷ []; hunks = [] })
unfolding merge merge_lines comparison_work check_input is_utf8 lines lines_loop
    comparison_work_for_lines compose compose_loop edits edits_of op_edits changed_lines slice
    append grow absorb joins append_bytes append_rendered emit flatten last_end overlap push_hunk
    render render_loop settle side_span write write_hunk Bytes-discrete ℕ_discrete
combined = refl

abbrev first_line : Range
first_line = record { start = 0; end = 1 }

-- Of two changes of one line the winner's is kept, and the line is noted.
conflicting :
    merge whole_diff base_text a_text c_text false
    ≡ ok (record {
      bytes = c_text;
      hunks = record { base = first_line; a = first_line; b = first_line } ∷ [];
    })
unfolding merge merge_lines comparison_work check_input is_utf8 lines lines_loop
    comparison_work_for_lines compose compose_loop edits edits_of op_edits changed_lines slice
    append grow absorb joins append_bytes append_rendered emit flatten last_end overlap push_hunk
    render render_loop settle side_span write write_hunk Bytes-discrete ℕ_discrete
conflicting = refl

concat-lines_example : (concat (lines base_text) ≡ base_text) × AreLines (lines base_text)
concat-lines_example = concat-lines base_text

merge-IsBounded_example : Ensures IsBounded (merge whole_diff base_text a_text c_text false)
merge-IsBounded_example = merge-IsBounded whole_diff base_text a_text c_text false

merge-Safe_example : Safe Anything (merge whole_diff base_text a_text c_text true)
merge-Safe_example = merge-Safe whole_diff whole_diff-IsDiff base_text a_text c_text true

abbrev two_lines : List Bytes
two_lines = (b'a' ∷ 10 ∷ []) ∷ (b'b' ∷ 10 ∷ []) ∷ []

abbrev three_lines : List Bytes
three_lines = (b'a' ∷ 10 ∷ []) ∷ (b'x' ∷ 10 ∷ []) ∷ (b'b' ∷ 10 ∷ []) ∷ []

render-edits_example :
    (es : List Edit) × (edits whole_diff two_lines three_lines ≡ ok es)
    × (render two_lines three_lines (record { start = 0; end = 2 }) es
        ≡ capped (concat three_lines))
render-edits_example =
    render-edits whole_diff two_lines three_lines (whole_diff-IsDiff two_lines three_lines)

abbrev inserted : Edit
inserted = record { base = record { start = 1; end = 1 }; side = record { start = 1; end = 2 } }

compose-Safe_example :
    Safe Anything (compose two_lines three_lines three_lines (inserted ∷ []) (inserted ∷ []) true)
compose-Safe_example =
    compose-Safe two_lines three_lines three_lines (inserted ∷ []) (inserted ∷ []) true
      (omega arith, omega arith, omega arith, omega arith, omega arith)
      (omega arith, omega arith, omega arith, omega arith, omega arith)
