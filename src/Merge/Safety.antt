-- ===== src/Merge/Safety.antt =====
-- src/merge.rs: the panics and the loops of `compose` and `merge`.
use file_local.Prelude.{
  ℕ, zero, suc, ◌+◌, ◌≤◌, ◌<◌, refl, Bool, true, false, Option, none, some, List, [], ◌∷◌, arith,
  length, ltb, not, ◌||◌,
}
use file_local.Prelude.Results.{Result, ok, ◌>>=◌, guard, ok_or, ◌>>◌}
use file_local.Merge.Patch.{IsDiff, edits_of-Rebuilds}
use file_local.Model.{Bytes}
use file_local.Merge.Text.{lines}
use file_local.Merge.Types.{
  DiffOp, Edit, Failure, FallbackReason, MergeResult, fallback, comparison_work as too_much_work,
  input_lines, max_input_lines, max_work,
}
use file_local.Merge.{
  check_input, checked_add, squares, comparison_work, comparison_work_for_lines, edits, merge,
  merge_lines, append, compose, compose_loop, emit, grow, rounds, slice,
}
use file_local.Merge.Progress.{Starts, a-Starts, b-Starts, both-Starts, closed-Advances}
use file_local.Merge.Grouping.{IsClosed, Safe, Safe-bind, WellPlaced, grow-IsClosed}
use file_local.Merge.Steps.{Anything, slice-Safe, append-Safe, emit-Safe}

module _ (base a b : List Bytes) (a_wins : Bool) where
  -- With more fuel than edits left, `compose_loop` goes on safely from any line.
  abbrev Continues : ℕ → Type 0
  Continues fuel =
      (c : ℕ) (left right : List Edit) (r : MergeResult)
      → c ≤ length base
      → WellPlaced (length base) (length a) c left
      → WellPlaced (length base) (length b) c right
      → length left + length right < fuel
      → Safe Anything (compose_loop fuel base a b a_wins c left right r)

  finish-Safe :
      (c : ℕ) (r : MergeResult)
      → c ≤ length base
      → Safe Anything (
          slice base c (length base) >>= λ tail.
          append r.bytes tail >>= λ o. ok (record r { bytes = o }))
  finish-Safe c r h =
      Safe-bind Anything Anything (slice base c (length base)) _
        (slice-Safe base c (length base) h (omega arith))
        λ tail _.
          Safe-bind Anything Anything (append r.bytes tail) _ (append-Safe r.bytes tail) (λ o _. tt)

  round-Safe :
      (fuel c start : ℕ) (left right : List Edit) (r : MergeResult)
      → Continues fuel
      → length left + length right < suc fuel
      → Starts (length base) (length a) (length b) c start left right
      → Safe Anything (
          slice base c start >>= λ kept. append r.bytes kept >>= λ o.
          grow
            (rounds left right)
            start
            (record { end = start; a_group = []; b_group = []; a_rest = left; b_rest = right })
          >>= λ g. emit base a b a_wins start g (record r { bytes = o }) >>= λ r'.
              compose_loop fuel base a b a_wins g.end g.a_rest g.b_rest r')
  round-Safe fuel c start left right r ih f s =
      Safe-bind Anything Anything (slice base c start) _
        (slice-Safe base c start s.follows s.inside)
        λ kept _.
          Safe-bind Anything Anything (append r.bytes kept) _ (append-Safe r.bytes kept) λ o _.
            Safe-bind (IsClosed (length base) (length a) (length b) start left right) Anything
              (grow (rounds left right) start _) _
              (grow-IsClosed (length base) (length a) (length b) start left right s.a_placed
                s.b_placed (rounds left right) _
                (record {
                  a_split = refl;
                  b_split = refl;
                  a_covered = tt;
                  b_covered = tt;
                  after = omega arith;
                  within = s.inside;
                })
                (omega arith))
              λ g k.
                let v =
                  closed-Advances (length base) (length a) (length b) c start left right g s k in
                Safe-bind Anything Anything (emit base a b a_wins start g (record r { bytes = o }))
                  _ (emit-Safe base a b a_wins start g _ v.after v.within v.a_group v.b_group)
                  λ r' _.
                    ih g.end g.a_rest g.b_rest r' v.within v.a_rest v.b_rest
                      (omega (arith, v.fewer))

  compose_loop-Safe : (fuel : ℕ) → Continues fuel
  unfolding compose_loop
  compose_loop-Safe zero c left right r h wa wb f = absurd (omega arith)
  compose_loop-Safe (suc fuel) c [] [] r h wa wb f = finish-Safe c r h
  compose_loop-Safe (suc fuel) c (e ∷ es) [] r h wa wb f =
      round-Safe fuel c e.base.start (e ∷ es) [] r (compose_loop-Safe fuel) f
        (a-Starts _ _ _ c e es wa)
  compose_loop-Safe (suc fuel) c [] (d ∷ ds) r h wa wb f =
      round-Safe fuel c d.base.start [] (d ∷ ds) r (compose_loop-Safe fuel) f
        (b-Starts _ _ _ c d ds wb)
  compose_loop-Safe (suc fuel) c (e ∷ es) (d ∷ ds) r h wa wb f =
      round-Safe fuel c _ (e ∷ es) (d ∷ ds) r (compose_loop-Safe fuel) f
        (both-Starts _ _ _ c e d es ds wa wb)

-- If the edits of each side are in order, apart from one another and within both files, `compose`
-- neither slices out of range nor loops for ever: it returns a merge or a reason to fall back.
pub compose-Safe :
    (base a b : List Bytes) (a_edits b_edits : List Edit) (a_wins : Bool)
    → WellPlaced (length base) (length a) 0 a_edits
    → WellPlaced (length base) (length b) 0 b_edits
    → Safe Anything (compose base a b a_edits b_edits a_wins)
unfolding compose
compose-Safe base a b a_edits b_edits a_wins wa wb =
    compose_loop-Safe base a b a_wins (rounds a_edits b_edits) 0 a_edits b_edits _ (omega arith) wa
      wb (omega arith)

check_input-Safe : (input : Bytes) → Safe Anything (check_input input)
unfolding check_input
check_input-Safe input = ground arith

guard-Safe {ℓ} :
    {A : Type ℓ} (c : Bool) (reason : FallbackReason) (m : Result A Failure)
    → Safe Anything m
    → Safe Anything (guard c (fallback reason) >> m)
guard-Safe true reason m h = h
guard-Safe false reason m h = tt

ok_or-Safe : (o : Option ℕ) (reason : FallbackReason) → Safe Anything (ok_or o (fallback reason))
ok_or-Safe none reason = tt
ok_or-Safe (some n) reason = tt

pub comparison_work-Safe : (base a b : Bytes) → Safe Anything (comparison_work base a b)
unfolding comparison_work comparison_work_for_lines
comparison_work-Safe base a b =
    Safe-bind Anything Anything (check_input base) _ (check_input-Safe base) λ t _.
      Safe-bind Anything Anything (check_input a) _ (check_input-Safe a) λ t _.
        Safe-bind Anything Anything (check_input b) _ (check_input-Safe b) λ t _.
          guard-Safe
            (not (
              ltb max_input_lines (length (lines base))
              || ltb max_input_lines (length (lines a))
              || ltb max_input_lines (length (lines b))))
            input_lines
            (comparison_work_for_lines (length (lines base)) (length (lines a)) (length (lines b)))
            (ok_or-Safe
              (squares (checked_add (length (lines base)) (length (lines a)))
                (checked_add (length (lines base)) (length (lines b))))
              too_much_work)

-- If the diff's operations cover both lists of lines and its equal ones are equal, a merge of any
-- three files returns a result or a reason to fall back: no slice and no index is out of range and
-- every loop ends.
pub merge-Safe :
    (diff : List Bytes → List Bytes → List DiffOp)
    → ((old new : List Bytes) → IsDiff old new 0 0 (diff old new))
    → (base a b : Bytes) (a_wins : Bool) → Safe Anything (merge diff base a b a_wins)
unfolding merge merge_lines edits
merge-Safe diff covers base a b a_wins =
    let (ea, pa, ra) =
      edits_of-Rebuilds (lines base) (lines a) 0 0 _ (covers (lines base) (lines a)) in
    let (eb, pb, rb) =
      edits_of-Rebuilds (lines base) (lines b) 0 0 _ (covers (lines base) (lines b)) in
    Safe-bind Anything Anything (comparison_work base a b) _ (comparison_work-Safe base a b)
      λ work _.
        guard-Safe (not (ltb max_work work)) too_much_work
          (merge_lines diff (lines base) (lines a) (lines b) a_wins)
          (rw (pa, pb)
            (compose-Safe (lines base) (lines a) (lines b) ea eb a_wins (ra.placed 0 (omega arith))
              (rb.placed 0 (omega arith))))
