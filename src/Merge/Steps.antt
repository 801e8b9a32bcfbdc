-- ===== src/Merge/Steps.antt =====
-- src/merge.rs: the panics that the steps of `compose` could meet.
use file_local.Prelude.{ℕ, ◌≤◌, Bool, List, [], ◌∷◌, arith, length}
use file_local.Prelude.Results.{ok, ◌>>=◌}
use file_local.Model.{Bytes}
use file_local.Merge.Types.{ConflictHunk, Edit, MergeResult, Range}
use file_local.Merge.{
  Group, append, append_bytes, append_rendered, emit, flatten, overlap, push_hunk, render,
  render_loop, settle, slice, write, write_hunk,
}
use file_local.Merge.Grouping.{Safe, Safe-bind, WellPlaced, WellPlaced-le}

abbrev pub Anything {ℓ} : {A : Type ℓ} → A → Type 0
Anything a = Unit

pub slice-Safe {ℓ} :
    {A : Type ℓ} (xs : List A) (i j : ℕ) → i ≤ j → j ≤ length xs → Safe Anything (slice xs i j)
unfolding slice
slice-Safe xs i j h k = ground arith

pub append_bytes-Safe : (output bytes : Bytes) → Safe Anything (append_bytes output bytes)
unfolding append_bytes
append_bytes-Safe output bytes = ground arith

pub append-Safe : (output : Bytes) (ls : List Bytes) → Safe Anything (append output ls)
unfolding append
append-Safe output [] = tt
append-Safe output (l ∷ ls) =
    Safe-bind Anything Anything (append_bytes output l) _ (append_bytes-Safe output l)
      (λ o _. append-Safe o ls)

pub push_hunk-Safe :
    (hunks : List ConflictHunk) (range : Range) (a b : List Edit)
    → Safe Anything (push_hunk hunks range a b)
unfolding push_hunk
push_hunk-Safe hunks range a b = ground arith

pub write-Safe : (r : MergeResult) (bytes : Bytes) → Safe Anything (write r bytes)
unfolding write
write-Safe r bytes =
    Safe-bind Anything Anything (append_bytes r.bytes bytes) _ (append_bytes-Safe r.bytes bytes)
      (λ o _. tt)

pub write_hunk-Safe :
    (range : Range) (g : Group) (r : MergeResult) (bytes : Bytes)
    → Safe Anything (write_hunk range g r bytes)
unfolding write_hunk
write_hunk-Safe range g r bytes =
    Safe-bind Anything Anything (append_bytes r.bytes bytes) _ (append_bytes-Safe r.bytes bytes)
      λ o _.
        Safe-bind Anything Anything (push_hunk r.hunks range g.a_group g.b_group) _
          (push_hunk-Safe r.hunks range g.a_group g.b_group) (λ hs _. tt)

pub settle-Safe :
    (a_wins : Bool) (range : Range) (g : Group) (r : MergeResult)
    (base_bytes a_bytes b_bytes : Bytes)
    → Safe Anything (settle a_wins range g r base_bytes a_bytes b_bytes)
unfolding settle
settle-Safe a_wins range g r base_bytes a_bytes b_bytes = ground (
  arith,
  write-Safe r a_bytes,
  write-Safe r b_bytes,
  write_hunk-Safe range g r a_bytes,
  write_hunk-Safe range g r b_bytes,
)

pub render_loop-Safe :
    (base side : List Bytes) (end cursor : ℕ) (output : Bytes) (es : List Edit)
    → end ≤ length base
    → WellPlaced end (length side) cursor es
    → Safe Anything (render_loop base side end cursor output es)
unfolding render_loop
render_loop-Safe base side end cursor output [] h w =
    Safe-bind Anything Anything (slice base cursor end) _ (slice-Safe base cursor end w h)
      (λ tail _. append-Safe output tail)
render_loop-Safe base side end cursor output (e ∷ es) h w =
    let below = WellPlaced-le end (length side) e.base.end es w.4 in
    Safe-bind Anything Anything (slice base cursor e.base.start) _
      (slice-Safe base cursor e.base.start w.0 (omega arith))
      λ kept _. Safe-bind Anything Anything (append output kept) _ (append-Safe output kept) λ o _.
        Safe-bind Anything Anything (slice side e.side.start e.side.end) _
          (slice-Safe side e.side.start e.side.end w.2 w.3)
          λ new _.
            Safe-bind Anything Anything (append o new) _ (append-Safe o new)
              λ o' _. render_loop-Safe base side end e.base.end o' es h w.4

module _ (base a b : List Bytes) (a_wins : Bool) where
  pub append_rendered-Safe :
      (side : List Bytes) (output : Bytes) (range : Range) (es : List Edit)
      → range.end ≤ length base
      → WellPlaced range.end (length side) range.start es
      → Safe Anything (append_rendered output base side range es)
  unfolding append_rendered render
  append_rendered-Safe side output range es h w =
      Safe-bind Anything Anything (render base side range es) _
        (render_loop-Safe base side range.end range.start [] es h w)
        (λ r _. append_bytes-Safe output r)

  pub overlap-Safe :
      (range : Range) (g : Group) (r : MergeResult)
      → range.start ≤ range.end
      → range.end ≤ length base
      → WellPlaced range.end (length a) range.start g.a_group
      → WellPlaced range.end (length b) range.start g.b_group
      → Safe Anything (overlap base a b a_wins range g r)
  unfolding overlap flatten render
  overlap-Safe range g r s h wa wb =
      Safe-bind Anything Anything (slice base range.start range.end) _
        (slice-Safe base range.start range.end s h)
        λ ls _. Safe-bind Anything Anything (flatten ls) _ (append-Safe [] ls) λ base_bytes _.
          Safe-bind Anything Anything (render base a range g.a_group) _
            (render_loop-Safe base a range.end range.start [] g.a_group h wa)
            λ a_bytes _.
              Safe-bind Anything Anything (render base b range g.b_group) _
                (render_loop-Safe base b range.end range.start [] g.b_group h wb)
                λ b_bytes _. settle-Safe a_wins range g r base_bytes a_bytes b_bytes

  pub rendered-Safe :
      (side : List Bytes) (range : Range) (es : List Edit) (r : MergeResult)
      → range.end ≤ length base
      → WellPlaced range.end (length side) range.start es
      → Safe Anything
          (append_rendered r.bytes base side range es >>= λ o. ok (record r { bytes = o }))
  rendered-Safe side range es r h w =
      Safe-bind Anything Anything (append_rendered r.bytes base side range es) _
        (append_rendered-Safe side r.bytes range es h w) (λ o _. tt)

  pub emit-Safe :
      (start : ℕ) (g : Group) (r : MergeResult)
      → start ≤ g.end
      → g.end ≤ length base
      → WellPlaced g.end (length a) start g.a_group
      → WellPlaced g.end (length b) start g.b_group
      → Safe Anything (emit base a b a_wins start g r)
  unfolding emit
  emit-Safe start g r s h wa wb =
      let range : Range = record { start = start; end = g.end } in
      ground (
        arith,
        rendered-Safe b range g.b_group r h wb,
        rendered-Safe a range g.a_group r h wa,
        overlap-Safe range g r s h wa wb,
      )
