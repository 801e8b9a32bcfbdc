-- ===== src/Merge.antt =====
-- src/merge.rs: the three-way merge of the lines of two files over their base. An index into a list
-- of edits is the list of the edits from there on; a line is the list of its bytes.
pub mod Types
pub mod Text
pub mod Lines
pub mod Patch
pub mod Bounds
pub mod Grouping
pub mod Segments
pub mod Render
pub mod Progress
pub mod Steps
pub mod Safety
mod Tests
use file_local.Prelude.{
  ℕ, zero, suc, ◌+◌, ◌-◌, ◌*◌, ◌^◌, Bool, true, false, not, Option, none, some, List, [], ◌∷◌, ◌++◌,
  ◌||◌, ◌&&◌, arith, ltb, leb, ◌==◌, if◌then◌else◌, length, take, drop, get_elem?, is_empty, any,
  min, max, holds, ℕ_discrete,
}
use file_local.Prelude.Results.{Result, ok, err, ◌>>=◌, ◌>>◌, guard, ok_or}
use file_local.Model.{Bytes, Bytes-discrete}
use Types.{
  ConflictHunk, DiffOp, Edit, Failure, FallbackReason, MergeResult, Range,
  comparison_work as too_much_work, contains_nul, fallback, input_bytes, input_lines, invalid_utf8,
  max_hunks, max_input_bytes, max_input_lines, max_output_bytes, max_work, out_of_fuel,
  output_bytes, panicked, too_many_hunks,
}
use Text.{is_utf8, lines}

abbrev pub M : Type 0 → Type 0
M A = Result A Failure

abbrev usize_max : ℕ
usize_max = 2 ^ 64 - 1

abbrev pub checked_add : ℕ → ℕ → Option ℕ
checked_add a b = if leb (a + b) usize_max then some (a + b) else none

abbrev checked_mul : ℕ → ℕ → Option ℕ
checked_mul a b = if leb (a * b) usize_max then some (a * b) else none

-- `&xs[i..j]`, which panics out of range.
unfoldable pub slice {ℓ} : {A : Type ℓ} → List A → ℕ → ℕ → Result (List A) Failure
slice xs i j = if leb i j && leb j (length xs) then ok (take (j - i) (drop i xs)) else err panicked

unfoldable pub append_bytes : Bytes → Bytes → M Bytes
append_bytes output bytes = do
  size ← ok_or (checked_add (length output) (length bytes)) (fallback output_bytes)
  if ltb max_output_bytes size then err (fallback output_bytes) else ok (output ++ bytes)

unfoldable pub append : Bytes → List Bytes → M Bytes
append output [] = ok output
append output (line ∷ rest) = do output' ← append_bytes output line; append output' rest

unfoldable pub render_loop : List Bytes → List Bytes → ℕ → ℕ → Bytes → List Edit → M Bytes
render_loop base side end cursor output [] = do tail ← slice base cursor end; append output tail
render_loop base side end cursor output (edit ∷ edits) = do
  kept ← slice base cursor edit.base.start
  output₁ ← append output kept
  new ← slice side edit.side.start edit.side.end
  output₂ ← append output₁ new
  render_loop base side end edit.base.end output₂ edits

unfoldable pub render : List Bytes → List Bytes → Range → List Edit → M Bytes
render base side range edits = render_loop base side range.end range.start [] edits

unfoldable pub append_rendered : Bytes → List Bytes → List Bytes → Range → List Edit → M Bytes
append_rendered output base side range edits = do
  rendered ← render base side range edits
  append_bytes output rendered

unfoldable pub flatten : List Bytes → M Bytes
flatten lines = append [] lines

unfoldable pub last_end : ℕ → List Edit → ℕ
last_end start [] = start
last_end start (e ∷ []) = e.side.end
last_end start (e ∷ f ∷ es) = last_end start (f ∷ es)

unfoldable pub side_span : List Edit → Range
side_span [] = record { start = 0; end = 0 }
side_span (e ∷ es) = record { start = e.side.start; end = last_end e.side.start (e ∷ es) }

unfoldable pub push_hunk : List ConflictHunk → Range → List Edit → List Edit → M (List ConflictHunk)
push_hunk hunks base a b =
    if length hunks == max_hunks
    then err (fallback too_many_hunks)
    else ok (hunks ++ record { base = base; a = side_span a; b = side_span b } ∷ [])

unfoldable pub joins : Edit → ℕ → ℕ → Bool
joins edit start end = if end == start then edit.base.start == start else ltb edit.base.start end

-- One of the inner `while let` loops: the edits that join the group, and the group's new end.
pub record Absorbed : Type 0 where
  pub end : ℕ
  pub taken : List Edit
  pub rest : List Edit

unfoldable pub absorb : ℕ → ℕ → List Edit → Absorbed
absorb start end [] = record { end = end; taken = []; rest = [] }
absorb start end (e ∷ es) =
    let r = absorb start (max end e.base.end) es in
    if joins e start end
    then record { end = r.end; taken = e ∷ r.taken; rest = r.rest }
    else record { end = end; taken = []; rest = e ∷ es }

pub record Group : Type 0 where
  pub end : ℕ
  pub a_group : List Edit
  pub b_group : List Edit
  pub a_rest : List Edit
  pub b_rest : List Edit

-- `loop { ... if !extended { break; } }`
unfoldable pub grow : ℕ → ℕ → Group → M Group
grow zero start g = err out_of_fuel
grow (suc fuel) start g =
    let ra = absorb start g.end g.a_rest in
    let rb = absorb start ra.end g.b_rest in
    let next : Group = record {
      end = rb.end;
      a_group = g.a_group ++ ra.taken;
      b_group = g.b_group ++ rb.taken;
      a_rest = ra.rest;
      b_rest = rb.rest;
    } in
    let again = grow fuel start next in
    if is_empty ra.taken && is_empty rb.taken then ok next else again

abbrev pub eq_bytes : Bytes → Bytes → Bool
eq_bytes a b = holds (Bytes-discrete a b)

-- `append_bytes(&mut output, ..)?`, and the same with `push_hunk` after it.
unfoldable pub write : MergeResult → Bytes → M MergeResult
write so_far bytes = do
  output ← append_bytes so_far.bytes bytes
  ok (record so_far { bytes = output })

unfoldable pub write_hunk : Range → Group → MergeResult → Bytes → M MergeResult
write_hunk range g so_far bytes = do
  output ← append_bytes so_far.bytes bytes
  hunks ← push_hunk so_far.hunks range g.a_group g.b_group
  ok (record { bytes = output; hunks = hunks })

-- What is written of a group that both sides touch, from its text on the base and on each side.
unfoldable pub settle : Bool → Range → Group → MergeResult → Bytes → Bytes → Bytes → M MergeResult
settle a_wins range g so_far base_bytes a_bytes b_bytes =
    if eq_bytes a_bytes b_bytes
    then write so_far a_bytes
    else if eq_bytes a_bytes base_bytes
    then write so_far b_bytes
    else if eq_bytes b_bytes base_bytes || a_wins
    then (if not (eq_bytes b_bytes base_bytes)
        then write_hunk range g so_far a_bytes
        else write so_far a_bytes)
    else write_hunk range g so_far b_bytes

unfoldable pub overlap :
    List Bytes → List Bytes → List Bytes → Bool → Range → Group → MergeResult → M MergeResult
overlap base a b a_wins range g so_far = do
  base_lines ← slice base range.start range.end
  base_bytes ← flatten base_lines
  a_bytes ← render base a range g.a_group
  b_bytes ← render base b range g.b_group
  settle a_wins range g so_far base_bytes a_bytes b_bytes

-- The text of a group: one side's if the other has no edit in it.
unfoldable pub emit :
    List Bytes → List Bytes → List Bytes → Bool → ℕ → Group → MergeResult → M MergeResult
emit base a b a_wins start g so_far =
    let range : Range = record { start = start; end = g.end } in
    if is_empty g.a_group
    then (do
      output ← append_rendered so_far.bytes base b range g.b_group
      ok (record so_far { bytes = output }))
    else if is_empty g.b_group
    then (do
      output ← append_rendered so_far.bytes base a range g.a_group
      ok (record so_far { bytes = output }))
    else overlap base a b a_wins range g so_far

-- The start of the next group; `none` when no edit is left.
abbrev pub next_start : List Edit → List Edit → Option ℕ
next_start (a ∷ more) (b ∷ others) = some (min a.base.start b.base.start)
next_start (a ∷ more) [] = some a.base.start
next_start [] (b ∷ others) = some b.base.start
next_start [] [] = none

-- The number of rounds after which `grow` stops at the latest.
abbrev pub rounds : List Edit → List Edit → ℕ
rounds a_edits b_edits = suc (length a_edits + length b_edits)

unfoldable pub compose_loop :
    ℕ
    → List Bytes
    → List Bytes
    → List Bytes
    → Bool
    → ℕ
    → List Edit
    → List Edit
    → MergeResult
    → M MergeResult
compose_loop zero base a b a_wins cursor a_edits b_edits so_far = err out_of_fuel
compose_loop (suc fuel) base a b a_wins cursor a_edits b_edits so_far =
    elim (next_start a_edits b_edits) [
      | none ↦ (do
        tail ← slice base cursor (length base)
        output ← append so_far.bytes tail
        ok (record so_far { bytes = output }))
      | some start ↦ (do
        kept ← slice base cursor start
        output ← append so_far.bytes kept
        g ←
            grow (rounds a_edits b_edits) start (record {
              end = start;
              a_group = [];
              b_group = [];
              a_rest = a_edits;
              b_rest = b_edits;
            })
        so_far' ← emit base a b a_wins start g (record so_far { bytes = output })
        compose_loop fuel base a b a_wins g.end g.a_rest g.b_rest so_far')
    ]

unfoldable pub compose :
    List Bytes → List Bytes → List Bytes → List Edit → List Edit → Bool → M MergeResult
compose base a b a_edits b_edits a_wins =
    compose_loop (rounds a_edits b_edits) base a b a_wins 0 a_edits b_edits
      (record { bytes = []; hunks = [] })

-- `xs[i]`, which panics out of range.
abbrev pub element {ℓ} : {A : Type ℓ} → List A → ℕ → Result A Failure
element xs i = ok_or (get_elem? xs i) panicked

-- The single-line edits of an operation whose ranges are equally long: one for each line that
-- changes.
unfoldable pub changed_lines : List Bytes → List Bytes → ℕ → ℕ → ℕ → M (List Edit)
changed_lines base side i j zero = ok []
changed_lines base side i j (suc n) = do
  old ← element base i
  new ← element side j
  rest ← changed_lines base side (suc i) (suc j) n
  if eq_bytes old new
      then ok rest
      else ok (
          record {
            base = record { start = i; end = suc i };
            side = record { start = j; end = suc j };
          }
          ∷ rest)

unfoldable pub op_edits : List Bytes → List Bytes → DiffOp → M (List Edit)
op_edits base side op =
    let n = op.old_range.end - op.old_range.start in
    let m = op.new_range.end - op.new_range.start in
    if op.is_equal
    then ok []
    else if n == m && not (n == 0)
    then changed_lines base side op.old_range.start op.new_range.start n
    else ok (record { base = op.old_range; side = op.new_range } ∷ [])

unfoldable pub edits_of : List Bytes → List Bytes → List DiffOp → M (List Edit)
edits_of base side [] = ok []
edits_of base side (op ∷ ops) = do
  first ← op_edits base side op
  rest ← edits_of base side ops
  ok (first ++ rest)

abbrev square : Option ℕ → Option ℕ
square none = none
square (some n) = checked_mul n n

abbrev pub squares : Option ℕ → Option ℕ → Option ℕ
squares a b = elim (square a) [
  | none ↦ none
  | some left ↦ elim (square b) [ none ↦ none | some right ↦ checked_add left right ]
]

unfoldable pub comparison_work_for_lines : ℕ → ℕ → ℕ → M ℕ
comparison_work_for_lines base a b =
    ok_or (squares (checked_add base a) (checked_add base b)) (fallback too_much_work)

-- The tests of one input.
unfoldable pub check_input : Bytes → M (Unit {0})
check_input input =
    if ltb max_input_bytes (length input)
    then err (fallback input_bytes)
    else if any (λ c. c == 0) input
    then err (fallback contains_nul)
    else if is_utf8 input
    then ok tt
    else err (fallback invalid_utf8)

unfoldable pub comparison_work : Bytes → Bytes → Bytes → M ℕ
comparison_work base a b = do
  check_input base
  check_input a
  check_input b
  guard
      (not (
        ltb max_input_lines (length (lines base))
        || ltb max_input_lines (length (lines a))
        || ltb max_input_lines (length (lines b))))
      (fallback input_lines)
  comparison_work_for_lines (length (lines base)) (length (lines a)) (length (lines b))

-- `merge`, over the diff of two lists of lines.
module _ (diff : List Bytes → List Bytes → List DiffOp) where
  unfoldable pub edits : List Bytes → List Bytes → M (List Edit)
  edits base side = edits_of base side (diff base side)

  unfoldable pub merge_lines : List Bytes → List Bytes → List Bytes → Bool → M MergeResult
  merge_lines base a b a_wins = do
    a_edits ← edits base a
    b_edits ← edits base b
    compose base a b a_edits b_edits a_wins

  unfoldable pub merge : Bytes → Bytes → Bytes → Bool → M MergeResult
  merge base a b a_wins = do
    work ← comparison_work base a b
    guard (not (ltb max_work work)) (fallback too_much_work)
    merge_lines (lines base) (lines a) (lines b) a_wins
