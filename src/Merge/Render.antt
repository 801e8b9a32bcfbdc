-- ===== src/Merge/Render.antt =====
-- src/merge.rs: what `append`, `render` and `edits` write, up to the limit of the output.
use mathlib.Core.List.{append_assoc, append-nil}
use file_local.Prelude.{
  ℕ, ◌≤◌, ◌≡◌, refl, sym, ◌∙◌, ap, false, List, [], ◌∷◌, ◌++◌, arith, length, leb, length-append,
  if◌then◌else◌, Bool-cases, inl, inr,
}
use file_local.Prelude.Results.{ok, err, ◌>>=◌}
use file_local.Model.{Bytes}
use file_local.Merge.Types.{DiffOp, Edit, fallback, max_output_bytes, output_bytes}
use file_local.Merge.{M, append, append_bytes, edits, render, render_loop, slice}
use file_local.Merge.Lines.{concat}
use file_local.Merge.Grouping.{WellPlaced, WellPlaced-le}
use file_local.Merge.Segments.{concat-append, segment}
use file_local.Merge.Patch.{IsDiff, edits_of-Rebuilds, patched}

-- The bytes, or the refusal of an output over the limit.
abbrev pub capped : Bytes → M Bytes
capped bytes = if leb (length bytes) max_output_bytes then ok bytes else err (fallback output_bytes)

capped-ok : (bytes : Bytes) → length bytes ≤ max_output_bytes → capped bytes ≡ ok bytes
capped-ok bytes h = ground arith

-- A step that only adds to an output under the limit can be put off to the end.
capped-bind :
    (x y : Bytes) (f : Bytes → M Bytes)
    → length x ≤ length y
    → (length x ≤ max_output_bytes → f x ≡ capped y)
    → (capped x >>= f) ≡ capped y
capped-bind x y f h k = elim (Bool-cases (leb (length x) max_output_bytes)) [
  | inl fits ↦ rw fits (k (ground arith))
  | inr over ↦
      let too : leb (length y) max_output_bytes ≡ false = ground arith in rw (over, too) refl
]

append_bytes-capped : (output bytes : Bytes) → append_bytes output bytes ≡ capped (output ++ bytes)
unfolding append_bytes
append_bytes-capped output bytes = ground (arith, length-append output bytes)

pub append-capped :
    (output : Bytes) (ls : List Bytes)
    → length output ≤ max_output_bytes
    → append output ls ≡ capped (output ++ concat ls)
unfolding append
append-capped output [] h = sym (ap capped (append-nil output) ∙ capped-ok output h)
append-capped output (l ∷ ls) h =
    ap (λ m. m >>= λ o. append o ls) (append_bytes-capped output l)
    ∙ capped-bind (output ++ l) (output ++ (l ++ concat ls)) (λ o. append o ls)
        (omega (
          arith,
          length-append output l,
          length-append output (l ++ concat ls),
          length-append l (concat ls),
        ))
        (λ fits.
          append-capped (output ++ l) ls fits ∙ ap capped (append_assoc output l (concat ls)))

slice-segment :
    {A : Type 0} (i j : ℕ) (xs : List A)
    → i ≤ j
    → j ≤ length xs
    → slice xs i j ≡ ok (segment i j xs)
unfolding slice
slice-segment i j xs h k = ground arith

render_loop-capped :
    (base side : List Bytes) (end cursor : ℕ) (output : Bytes) (es : List Edit)
    → end ≤ length base
    → WellPlaced end (length side) cursor es
    → length output ≤ max_output_bytes
    → render_loop base side end cursor output es
      ≡ capped (output ++ concat (patched base side end cursor es))
unfolding render_loop
render_loop-capped base side end cursor output [] h w f =
    ap (λ m. m >>= λ tail. append output tail) (slice-segment cursor end base w h)
    ∙ append-capped output (segment cursor end base) f
render_loop-capped base side end cursor output (e ∷ es) h w f =
    let k = segment cursor e.base.start base in
    let n = segment e.side.start e.side.end side in
    let rest = patched base side end e.base.end es in
    let i = WellPlaced-le end (length side) e.base.end es w.4 in
    let kept = output ++ concat k in
    let whole = output ++ concat (k ++ (n ++ rest)) in
    let parts : whole ≡ (kept ++ concat n) ++ concat rest =
      ap (◌++◌ output) (concat-append k (n ++ rest) ∙ ap (◌++◌ (concat k)) (concat-append n rest))
      ∙ sym (append_assoc output (concat k) _)
      ∙ sym (append_assoc kept (concat n) _) in
    let size = ap length parts in
    let l = length-append (kept ++ concat n) (concat rest) in
    let l' = length-append kept (concat n) in
    rw (slice-segment cursor e.base.start base w.0 (omega arith), append-capped output k f)
      (capped-bind kept whole _ (omega arith) λ fits.
        rw (slice-segment e.side.start e.side.end side w.2 w.3, append-capped kept n fits)
          (capped-bind (kept ++ concat n) whole _ (omega arith) λ fits'.
            render_loop-capped base side end e.base.end (kept ++ concat n) es h w.4 fits'
            ∙ ap capped (sym parts)))

-- If the diff's operations cover both files and its equal ones are equal, the edits of a side are
-- computed without a panic, and applying them to the base gives that side byte for byte, or the
-- refusal of an output over the limit if the side is longer than that.
pub render-edits :
    (diff : List Bytes → List Bytes → List DiffOp) (base side : List Bytes)
    → IsDiff base side 0 0 (diff base side)
    → (es : List Edit) × (edits diff base side ≡ ok es)
      × (render base side (record { start = 0; end = length base }) es ≡ capped (concat side))
unfolding render edits
render-edits diff base side h =
    let (es, e, r) = edits_of-Rebuilds base side 0 0 (diff base side) h in
    (
      es,
      e,
      render_loop-capped base side (length base) 0 [] es (omega arith) (r.placed 0 (omega arith))
            (omega arith)
          ∙ ap (λ ls. capped (concat ls)) (r.rebuilt 0 (omega arith)),
    )
