-- ===== src/Merge/Bounds.antt =====
-- src/merge.rs: the limits of a merge result.
use file_local.Prelude.{
  ℕ, zero, suc, ◌≤◌, Bool, List, [], ◌∷◌, arith, length, length-append, Bool-cases, inl, inr, ltb,
  ◌==◌, Option-cases, not,
}
use file_local.Prelude.Results.{Result, ok, err, ◌>>=◌, guard}
use file_local.Model.{Bytes}
use file_local.Merge.Types.{
  ConflictHunk, DiffOp, Edit, Failure, MergeResult, Range, comparison_work as too_much_work,
  fallback, max_hunks, max_output_bytes, max_work,
}
use file_local.Merge.Text.{lines}
use file_local.Merge.{
  edits, Group, append, append_bytes, append_rendered, compose, compose_loop, emit, grow, merge,
  merge_lines, overlap, comparison_work, flatten, next_start, render, rounds, push_hunk, settle,
  slice, write, write_hunk,
}

-- A property of the result, if there is one.
abbrev pub Ensures {ℓ κ} : {A : Type ℓ} → (A → Type κ) → Result A Failure → Type κ
Ensures P (ok a) = P a
Ensures P (err e) = Unit

pub Ensures-bind {ℓ κ μ ν} :
    {A : Type ℓ} {B : Type κ} (Q : A → Type μ) (P : B → Type ν) (m : Result A Failure)
    (f : A → Result B Failure)
    → Ensures Q m
    → ((a : A) → Q a → Ensures P (f a))
    → Ensures P (m >>= f)
Ensures-bind Q P (ok a) f h k = k a h
Ensures-bind Q P (err e) f h k = tt

-- A step of which nothing need be known.
pub Ensures-skip {ℓ κ ν} :
    {A : Type ℓ} {B : Type κ} (P : B → Type ν) (m : Result A Failure) (f : A → Result B Failure)
    → ((a : A) → Ensures P (f a))
    → Ensures P (m >>= f)
Ensures-skip P (ok a) f k = k a
Ensures-skip P (err e) f k = tt

abbrev Fits : Bytes → Type 0
Fits output = length output ≤ max_output_bytes

abbrev HunksFit : List ConflictHunk → Type 0
HunksFit hunks = length hunks ≤ max_hunks

pub record IsBounded (r : MergeResult) : Type 0 where
  pub bytes_fit : Fits r.bytes
  pub hunks_fit : HunksFit r.hunks

append_bytes-Fits : (output bytes : Bytes) → Ensures Fits (append_bytes output bytes)
unfolding append_bytes
append_bytes-Fits output bytes = ground (arith, length-append output bytes)

append-Fits : (output : Bytes) (ls : List Bytes) → Fits output → Ensures Fits (append output ls)
unfolding append
append-Fits output [] h = h
append-Fits output (l ∷ ls) h =
    Ensures-bind Fits Fits (append_bytes output l) _ (append_bytes-Fits output l)
      (λ o ho. append-Fits o ls ho)

append_rendered-Fits :
    (output : Bytes) (base side : List Bytes) (range : Range) (edits : List Edit)
    → Ensures Fits (append_rendered output base side range edits)
unfolding append_rendered
append_rendered-Fits output base side range edits =
    Ensures-skip Fits (render base side range edits) _ (λ r. append_bytes-Fits output r)

push_hunk-HunksFit :
    (hunks : List ConflictHunk) (range : Range) (a b : List Edit)
    → HunksFit hunks
    → Ensures HunksFit (push_hunk hunks range a b)
unfolding push_hunk
push_hunk-HunksFit hunks range a b h = elim (Bool-cases (length hunks == max_hunks)) [
  | inl full ↦ rw (full, push_hunk) tt
  | inr room ↦ rw (room, push_hunk) (rw (length-append hunks (_ ∷ [])) (ground arith))
]

write-IsBounded :
    (r : MergeResult) (bytes : Bytes) → HunksFit r.hunks → Ensures IsBounded (write r bytes)
unfolding write
write-IsBounded r bytes h =
    Ensures-bind Fits IsBounded (append_bytes r.bytes bytes) _ (append_bytes-Fits r.bytes bytes)
      (λ o ho. record { bytes_fit = ho; hunks_fit = h })

write_hunk-IsBounded :
    (range : Range) (g : Group) (r : MergeResult) (bytes : Bytes)
    → HunksFit r.hunks
    → Ensures IsBounded (write_hunk range g r bytes)
unfolding write_hunk
write_hunk-IsBounded range g r bytes h =
    Ensures-bind Fits IsBounded (append_bytes r.bytes bytes) _ (append_bytes-Fits r.bytes bytes)
      λ o ho.
        Ensures-bind HunksFit IsBounded (push_hunk r.hunks range g.a_group g.b_group) _
          (push_hunk-HunksFit r.hunks range g.a_group g.b_group h)
          (λ hs hh. record { bytes_fit = ho; hunks_fit = hh })

settle-IsBounded :
    (a_wins : Bool) (range : Range) (g : Group) (r : MergeResult)
    (base_bytes a_bytes b_bytes : Bytes)
    → HunksFit r.hunks
    → Ensures IsBounded (settle a_wins range g r base_bytes a_bytes b_bytes)
unfolding settle
settle-IsBounded a_wins range g r base_bytes a_bytes b_bytes h = ground (
  arith,
  write-IsBounded r a_bytes h,
  write-IsBounded r b_bytes h,
  write_hunk-IsBounded range g r a_bytes h,
  write_hunk-IsBounded range g r b_bytes h,
)

overlap-IsBounded :
    (base a b : List Bytes) (a_wins : Bool) (range : Range) (g : Group) (r : MergeResult)
    → HunksFit r.hunks
    → Ensures IsBounded (overlap base a b a_wins range g r)
unfolding overlap
overlap-IsBounded base a b a_wins range g r h =
    Ensures-skip IsBounded (slice base range.start range.end) _ λ ls.
      Ensures-skip IsBounded (flatten ls) _ λ base_bytes.
        Ensures-skip IsBounded (render base a range g.a_group) _ λ a_bytes.
          Ensures-skip IsBounded (render base b range g.b_group) _
            λ b_bytes. settle-IsBounded a_wins range g r base_bytes a_bytes b_bytes h

rendered-IsBounded :
    (base side : List Bytes) (range : Range) (edits : List Edit) (r : MergeResult)
    → HunksFit r.hunks
    → Ensures IsBounded
        (append_rendered r.bytes base side range edits >>= λ o. ok (record r { bytes = o }))
rendered-IsBounded base side range edits r h =
    Ensures-bind Fits IsBounded (append_rendered r.bytes base side range edits) _
      (append_rendered-Fits r.bytes base side range edits)
      (λ o ho. record { bytes_fit = ho; hunks_fit = h })

emit-IsBounded :
    (base a b : List Bytes) (a_wins : Bool) (start : ℕ) (g : Group) (r : MergeResult)
    → HunksFit r.hunks
    → Ensures IsBounded (emit base a b a_wins start g r)
unfolding emit
emit-IsBounded base a b a_wins start g r h =
    let range : Range = record { start = start; end = g.end } in
    ground (
      arith,
      rendered-IsBounded base b range g.b_group r h,
      rendered-IsBounded base a range g.a_group r h,
      overlap-IsBounded base a b a_wins range g r h,
    )

compose_loop-IsBounded :
    (fuel : ℕ) (base a b : List Bytes) (a_wins : Bool) (cursor : ℕ) (a_edits b_edits : List Edit)
    (r : MergeResult)
    → IsBounded r
    → Ensures IsBounded (compose_loop fuel base a b a_wins cursor a_edits b_edits r)
unfolding compose_loop
compose_loop-IsBounded zero base a b a_wins cursor a_edits b_edits r h = tt
compose_loop-IsBounded (suc fuel) base a b a_wins cursor a_edits b_edits r h =
    elim (Option-cases (next_start a_edits b_edits)) [
      | inl e ↦
          rw (e, compose_loop)
            (Ensures-skip IsBounded (slice base cursor (length base)) _ λ tail.
              Ensures-bind Fits IsBounded (append r.bytes tail) _
                (append-Fits r.bytes tail h.bytes_fit)
                (λ o ho. record { bytes_fit = ho; hunks_fit = h.hunks_fit }))
      | inr (start, e) ↦
          rw (e, compose_loop)
            (Ensures-skip IsBounded (slice base cursor start) _ λ kept.
              Ensures-bind Fits IsBounded (append r.bytes kept) _
                (append-Fits r.bytes kept h.bytes_fit)
                λ o ho.
                  Ensures-skip IsBounded
                    (grow (rounds a_edits b_edits) start (record {
                      end = start;
                      a_group = [];
                      b_group = [];
                      a_rest = a_edits;
                      b_rest = b_edits;
                    }))
                    _
                    λ g.
                      Ensures-bind IsBounded IsBounded
                        (emit base a b a_wins start g (record r { bytes = o })) _
                        (emit-IsBounded base a b a_wins start g (record r { bytes = o })
                          h.hunks_fit)
                        λ r' hr.
                          compose_loop-IsBounded fuel base a b a_wins g.end g.a_rest g.b_rest r' hr)
    ]

-- A merge that succeeds has at most 512 KiB of text and 1024 conflict hunks, whatever the diff is.
pub merge-IsBounded :
    (diff : List Bytes → List Bytes → List DiffOp) (base a b : Bytes) (a_wins : Bool)
    → Ensures IsBounded (merge diff base a b a_wins)
unfolding merge merge_lines compose
merge-IsBounded diff base a b a_wins = Ensures-skip IsBounded (comparison_work base a b) _ λ work.
    Ensures-skip IsBounded (guard (not (ltb max_work work)) (fallback too_much_work)) _ λ _.
      Ensures-skip IsBounded (edits diff (lines base) (lines a)) _ λ a_edits.
        Ensures-skip IsBounded (edits diff (lines base) (lines b)) _ λ b_edits.
          compose_loop-IsBounded _ (lines base) (lines a) (lines b) a_wins 0 a_edits b_edits
            (record { bytes = []; hunks = [] })
            (record { bytes_fit = omega arith; hunks_fit = omega arith })
