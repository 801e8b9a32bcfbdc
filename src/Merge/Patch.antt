-- ===== src/Merge/Patch.antt =====
-- src/merge.rs: `edits`, and `render` as the application of edits to the base.
use mathlib.Core.List.{append_assoc, append-nil}
use file_local.Prelude.{
  ℕ, zero, suc, ◌+◌, ◌-◌, ◌≤◌, ◌≡◌, sym, ◌∙◌, ap, true, List, [], ◌∷◌, ◌++◌, arith, length, drop,
  get_elem?, Bool-cases, inl, inr, holds, not, ◌&&◌, ◌==◌, if◌then◌else◌, ◌<◌, some, refl,
}
use file_local.Prelude.Results.{ok}
use file_local.Model.{Bytes, Bytes-discrete}
use file_local.Merge.Types.{DiffOp, Edit}
use file_local.Merge.{M, changed_lines, edits_of, eq_bytes, op_edits}
use file_local.Merge.Grouping.{WellPlaced}
use file_local.Merge.Segments.{
  segment, segment-drop, segment-one, segment_self, segment-split, drop-end,
}

-- What `capture_diff_slices` documents: operations that cover both lists from start to end, in
-- order and without a gap; one that is `Equal` covers the same lines on both.
abbrev pub IsDiff : List Bytes → List Bytes → ℕ → ℕ → List DiffOp → Type 0
IsDiff base side i j [] = (i ≡ length base) × (j ≡ length side)
IsDiff base side i j (op ∷ ops) =
    (op.old_range.start ≡ i)
    × (op.new_range.start ≡ j)
    × (i ≤ op.old_range.end)
    × (j ≤ op.new_range.end)
    × (op.is_equal ≡ true → segment i op.old_range.end base ≡ segment j op.new_range.end side)
    × IsDiff base side op.old_range.end op.new_range.end ops

get_elem?-some :
    {A : Type 0} (xs : List A) (i : ℕ) → i < length xs → (x : A) × (get_elem? xs i ≡ some x)
get_elem?-some [] i h = absurd (omega arith)
get_elem?-some (x ∷ xs) zero h = (x, refl)
get_elem?-some (x ∷ xs) (suc i) h = get_elem?-some xs i (omega arith)

IsDiff-within :
    (base side : List Bytes) (i j : ℕ) (ops : List DiffOp)
    → IsDiff base side i j ops
    → (i ≤ length base) × (j ≤ length side)
IsDiff-within base side i j [] h = (omega (arith, h.0), omega (arith, h.1))
IsDiff-within base side i j (op ∷ ops) h =
    let (p, q) = IsDiff-within base side op.old_range.end op.new_range.end ops h.5 in
    (omega arith, omega arith)

-- The lines that `render` writes, from line `c` of the base on.
abbrev pub patched : List Bytes → List Bytes → ℕ → ℕ → List Edit → List Bytes
patched base side end c [] = segment c end base
patched base side end c (e ∷ es) =
    segment c e.base.start base
    ++ (segment e.side.start e.side.end side ++ patched base side end e.base.end es)

module _ (base side : List Bytes) where
  -- The edits are in place from any line up to line `i` on, and turn the base from there on into
  -- the side from line `j` on.
  pub record Rebuilds (i j : ℕ) (es : List Edit) : Type 0 where
    pub within : j ≤ length side
    pub placed : (c : ℕ) → c ≤ i → WellPlaced (length base) (length side) c es
    pub rebuilt :
        (c : ℕ) → c ≤ i → patched base side (length base) c es ≡ segment c i base ++ drop j side

  -- One edit from line `i` of the base and `j` of the side, with the edits after it.
  replace-Rebuilds :
      (i i' j j' : ℕ) (es : List Edit)
      → i ≤ i'
      → j ≤ j'
      → Rebuilds i' j' es
      → Rebuilds i j (
          record { base = record { start = i; end = i' }; side = record { start = j; end = j' } }
          ∷ es)
  replace-Rebuilds i i' j j' es h l r = record {
    within = omega (arith, r.within);
    placed = λ c k. (k, h, l, r.within, r.placed i' (omega arith));
    rebuilt = λ c k.
        ap (λ (t : List Bytes). segment c i base ++ (segment j j' side ++ t))
          (r.rebuilt i' (omega arith)
            ∙ ap (λ (t : List Bytes). t ++ drop j' side) (segment_self i' base))
        ∙ ap (λ (t : List Bytes). segment c i base ++ t) (sym (segment-drop j j' side l));
  }

  -- No edit where the lines are the same.
  keep-Rebuilds :
      (i i' j j' : ℕ) (es : List Edit)
      → i ≤ i'
      → j ≤ j'
      → segment i i' base ≡ segment j j' side
      → Rebuilds i' j' es
      → Rebuilds i j es
  keep-Rebuilds i i' j j' es h l same r = record {
    within = omega (arith, r.within);
    placed = λ c k. r.placed c (omega arith);
    rebuilt = λ c k.
        r.rebuilt c (omega arith)
        ∙ ap (λ (t : List Bytes). t ++ drop j' side)
            (segment-split c i i' base k h ∙ ap (λ (t : List Bytes). segment c i base ++ t) same)
        ∙ append_assoc (segment c i base) (segment j j' side) (drop j' side)
        ∙ ap (λ (t : List Bytes). segment c i base ++ t) (sym (segment-drop j j' side l));
  }

  -- The edits of a part of the diff, computed without a panic, with the edits after them.
  abbrev Extends : ℕ → ℕ → M (List Edit) → List Edit → Type 0
  Extends i j m es = (ds : List Edit) × (m ≡ ok ds) × Rebuilds i j (ds ++ es)

  -- What a line adds to the edits of the lines after it.
  line_edit : (i j : ℕ) → Bytes → Bytes → List Edit → M (List Edit)
  line_edit i j old new rest =
      if eq_bytes old new
      then ok rest
      else ok (
          record {
            base = record { start = i; end = suc i };
            side = record { start = j; end = suc j };
          }
          ∷ rest)

  line_edit-Extends :
      (i j : ℕ) (old new : Bytes) (rest es : List Edit)
      → get_elem? base i ≡ some old
      → get_elem? side j ≡ some new
      → Rebuilds (suc i) (suc j) (rest ++ es)
      → Extends i j (line_edit i j old new rest) es
  unfolding line_edit
  line_edit-Extends i j old new rest es p q r =
      elim (Bytes-discrete old new)
        as (λ d.
          Extends i j
            (if holds d
              then ok rest
              else ok (
                  record {
                    base = record { start = i; end = suc i };
                    side = record { start = j; end = suc j };
                  }
                  ∷ rest))
            es) [
              | yes same ↦ (
                rest,
                refl,
                keep-Rebuilds i (suc i) j (suc j) _ (omega arith) (omega arith)
                    (segment-one i j base side (p ∙ ap some same ∙ sym q)) r,
              )
              | no differ ↦
                  (_, refl, replace-Rebuilds i (suc i) j (suc j) _ (omega arith) (omega arith) r)
            ]

  changed_lines-Extends :
      (i i' j j' k : ℕ) (es : List Edit)
      → i + k ≡ i'
      → j + k ≡ j'
      → i' ≤ length base
      → Rebuilds i' j' es
      → Extends i j (changed_lines base side i j k) es
  unfolding changed_lines line_edit
  changed_lines-Extends i i' j j' zero es h l fits r =
      let p : i ≡ i' = omega arith in let q : j ≡ j' = omega arith in ([], refl, rw (p, q) r)
  changed_lines-Extends i i' j j' (suc k) es h l fits r =
      let (old, p) = get_elem?-some base i (omega arith) in
      let (new, q) = get_elem?-some side j (omega (arith, r.within)) in
      let (ds, e, r') =
        changed_lines-Extends (suc i) i' (suc j) j' k es (omega arith) (omega arith) fits r in
      rw (p, q, e) (line_edit-Extends i j old new ds es p q r')

  op_edits-Extends :
      (op : DiffOp) (es : List Edit)
      → op.old_range.start ≤ op.old_range.end
      → op.new_range.start ≤ op.new_range.end
      → op.old_range.end ≤ length base
      → (op.is_equal ≡ true
          → segment op.old_range.start op.old_range.end base
            ≡ segment op.new_range.start op.new_range.end side)
      → Rebuilds op.old_range.end op.new_range.end es
      → Extends op.old_range.start op.new_range.start (op_edits base side op) es
  unfolding op_edits
  op_edits-Extends op es h l fits same r =
      let n = op.old_range.end - op.old_range.start in
      let m = op.new_range.end - op.new_range.start in
      elim (Bool-cases op.is_equal) [
        | inl e ↦ rw e ([], refl, keep-Rebuilds _ _ _ _ es h l (same e) r)
        | inr e ↦ elim (Bool-cases (n == m && not (n == 0))) [
          | inl p ↦
              let k : n ≡ m = ground arith in
              rw (e, p) (changed_lines-Extends _ _ _ _ n es (omega arith) (omega arith) fits r)
          | inr p ↦ rw (e, p) (_, refl, replace-Rebuilds _ _ _ _ es h l r)
        ]
      ]

  -- Over such a diff the edits are computed, with every index in range, and rebuild the side.
  pub edits_of-Rebuilds :
      (i j : ℕ) (ops : List DiffOp)
      → IsDiff base side i j ops
      → (es : List Edit) × (edits_of base side ops ≡ ok es) × Rebuilds i j es
  unfolding edits_of
  edits_of-Rebuilds i j [] h = (
    [],
    refl,
    record {
      within = omega (arith, h.1);
      placed = λ c k. omega (arith, h.0);
      rebuilt = λ c k.
          ap (λ e. segment c e base) (sym h.0)
          ∙ sym (append-nil (segment c i base))
          ∙ ap (λ (t : List Bytes). segment c i base ++ t)
              (sym (ap (λ e. drop e side) h.1 ∙ drop-end side));
    },
  )
  edits_of-Rebuilds i j (op ∷ ops) h =
      let (es, e, rest) = edits_of-Rebuilds op.old_range.end op.new_range.end ops h.5 in
      let within = IsDiff-within base side op.old_range.end op.new_range.end ops h.5 in
      let (ds, d, r) =
        op_edits-Extends op es (rw h.0 h.2) (rw h.1 h.3) within.0 (rw (h.0, h.1) h.4) rest in
      (ds ++ es, rw (d, e) refl, rw (sym h.0, sym h.1) r)
