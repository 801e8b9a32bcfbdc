-- ===== src/Sync/Materialize/Agreement.antt =====
-- src/sync.rs: the whole of `materialize_merges` against `verify_materialized_plan`.
use file_local.Prelude.{
  ℕ, ◌≡◌, ◌≢◌, refl, sym, ◌∙◌, true, Option, List, [], ◌∷◌, arith, All, All-map, Bool-cases, inl,
  inr, Ordering, Any, ◌⊎◌, ◌≤◌, ◌+◌, suc, length,
}
use file_local.Prelude.Order.{cmp_bytes, cmp_bytes-IsOrder as O}
use file_local.Prelude.Results.{ok}
use file_local.Model.{Bytes-discrete, Bytes, Entry, Version, VersionId}
use file_local.Merge.Types.{DiffOp}
use file_local.Reconcile.{MergeCandidate, Plan}
use file_local.Sync.Outcomes.{Outcome, compute_merge_outcomes, in_path_order}
use file_local.Sync.Materialize.{
  Share, materialize_loop, materialize_merges, sort_conflicts, verify_materialized_plan,
}
use file_local.Sync.Materialize.Edits.{conflicts_at-sort}
use file_local.Sync.Materialize.Verified.{
  AgreeAt, AreVerified, IsCandidate, IsVerified-AgreeAt, Stepped, materialize_one-Stepped,
  verify_loop_ok,
}

-- No candidate of the list is at the path.
abbrev Apart : Bytes → List MergeCandidate → Type 0
Apart p cs = All (λ d. d.path ≢ p) cs

Apart-cases : (p : Bytes) (cs : List MergeCandidate) → Any (λ c. c.path ≡ p) cs ⊎ Apart p cs
Apart-cases p [] = inr tt
Apart-cases p (c ∷ cs) = elim (Bytes-discrete c.path p) [
  | yes e ↦ inl (inl e)
  | no n ↦ elim (Apart-cases p cs) [ inl there ↦ inl (inr there) | inr apart ↦ inr (n, apart) ]
]

abbrev AreApart : List MergeCandidate → Type 0
AreApart [] = Unit {0}
AreApart (c ∷ cs) = Apart c.path cs × AreApart cs

abbrev pub Precedes : Bytes → List MergeCandidate → Type 0
Precedes p cs = All (λ d. cmp_bytes p d.path ≡ Ordering.lt) cs

in_path_order-Precedes :
    (c : MergeCandidate) (cs : List MergeCandidate)
    → in_path_order (c ∷ cs) ≡ true
    → Precedes c.path cs
unfolding in_path_order
in_path_order-Precedes c [] h = tt
in_path_order-Precedes c (d ∷ cs) h =
    let below : cmp_bytes c.path d.path ≡ Ordering.lt = ground arith in
    let rest : in_path_order (d ∷ cs) ≡ true = ground arith in
    (
      below,
      All-map _ _ cs (λ e k. O.lt_trans c.path d.path e.path below k)
          (in_path_order-Precedes d cs rest),
    )

in_path_order-AreApart : (cs : List MergeCandidate) → in_path_order cs ≡ true → AreApart cs
unfolding in_path_order
in_path_order-AreApart [] h = tt
in_path_order-AreApart (c ∷ []) h = (tt, tt)
in_path_order-AreApart (c ∷ d ∷ cs) h =
    let rest : in_path_order (d ∷ cs) ≡ true = ground arith in
    (
      All-map _ _ (d ∷ cs) (λ e k same. ground (arith, O.cmp_self c.path))
          (in_path_order-Precedes c (d ∷ cs) h),
      in_path_order-AreApart (d ∷ cs) rest,
    )

IsCandidate-AgreeAt :
    (plan plan' : Plan) (c : MergeCandidate)
    → AgreeAt c.path plan plan'
    → IsCandidate plan c
    → IsCandidate plan' c
IsCandidate-AgreeAt plan plan' c (e, f) (path, found) = (path, e ∙ found)

AreCandidates-AgreeAt :
    (p : Bytes) (plan plan' : Plan) (cs : List MergeCandidate)
    → ((q : Bytes) → q ≢ p → AgreeAt q plan plan')
    → Apart p cs
    → All (IsCandidate plan) cs
    → All (IsCandidate plan') cs
AreCandidates-AgreeAt p plan plan' [] f a h = tt
AreCandidates-AgreeAt p plan plan' (c ∷ cs) f a h = (
  IsCandidate-AgreeAt plan plan' c (f c.path a.0) h.0,
  AreCandidates-AgreeAt p plan plan' cs f a.1 h.1,
)

sorted-AreVerified :
    (plan : Plan) (cs : List MergeCandidate) (os : List Outcome)
    → AreVerified plan cs os
    → AreVerified (sort_conflicts plan) cs os
unfolding sort_conflicts
sorted-AreVerified plan [] os h = tt
sorted-AreVerified plan (c ∷ cs) [] h = tt
sorted-AreVerified plan (c ∷ cs) (o ∷ os) h = (
  IsVerified-AgreeAt plan (sort_conflicts plan) c o (refl, conflicts_at-sort c.path plan) h.0,
  sorted-AreVerified plan cs os h.1,
)

-- The store takes the next merges, one for each candidate.
abbrev pub Accepts : Share → ℕ → Type 0
Accepts s n = (k : ℕ) (b : Bytes) → k ≤ s.sequence + n → s.accepts k b ≡ true

module _ (seal_id : Bytes → ℕ → Bytes) (seal_base : VersionId → Entry → Bytes)
    (seal_version : Bytes → Version → Bytes) (peer : Bytes) where
  Looped : Share → Plan → List MergeCandidate → List Outcome → Type 0
  Looped s plan cs os =
      (r : Share × Plan) × (materialize_loop seal_id seal_base seal_version peer s plan cs os
        ≡ ok r)
      × AreVerified r.1 cs os
      × ((p : Bytes) → Apart p cs → AgreeAt p plan r.1)
      × (r.1.merges ≡ plan.merges)

  materialize_loop-Looped :
      (s : Share) (plan : Plan) (cs : List MergeCandidate) (os : List Outcome)
      → AreApart cs
      → All (IsCandidate plan) cs
      → Accepts s (length cs)
      → Looped s plan cs os
  unfolding materialize_loop Looped Stepped
  materialize_loop-Looped s plan [] os a h t = ((s, plan), refl, tt, λ p n. (refl, refl), refl)
  materialize_loop-Looped s plan (c ∷ cs) [] a h t =
      ((s, plan), refl, tt, λ p n. (refl, refl), refl)
  materialize_loop-Looped s plan (c ∷ cs) (o ∷ os) a h t =
      let (r, done, verified, others, same, next, store) =
        materialize_one-Stepped seal_id seal_base seal_version peer s plan c o h.0
          (λ b. t (suc s.sequence) b (omega arith)) in
      let (q, finished, rest, kept, same') =
        materialize_loop-Looped r.0 r.1 cs os a.1
          (AreCandidates-AgreeAt c.path plan r.1 cs others a.0 h.1)
          (λ k b le. rw store (t k b (omega (arith, next)))) in
      (
        q,
        rw done finished,
        (IsVerified-AgreeAt r.1 q.1 c o (kept c.path a.0) verified, rest),
        λ p n.
            let now = others p (λ e. n.0 (sym e)) in
            let later = kept p n.1 in (later.0 ∙ now.0, later.1 ∙ now.1),
        same' ∙ same,
      )

module _ (read : Bytes → Option Bytes) (blake3 : Bytes → Bytes)
    (diff : List Bytes → List Bytes → List DiffOp) where
  outcomes-in_path_order :
      (cs : List MergeCandidate) (os : List Outcome)
      → compute_merge_outcomes read blake3 diff cs ≡ ok os
      → in_path_order cs ≡ true
  unfolding compute_merge_outcomes
  outcomes-in_path_order cs os h = elim (Bool-cases (in_path_order cs)) [
    | inl e ↦ e
    | inr e ↦ ground arith
  ]

  -- A plan that has the winner of each of its merge candidates, whose merges the round can compute
  -- and the store takes, is materialized; `verify_materialized_plan` accepts the result; and but for
  -- the paths of its candidates the plan stays as it was.
  pub materialize-verify :
      (seal_id : Bytes → ℕ → Bytes) (seal_base : VersionId → Entry → Bytes)
      (seal_version : Bytes → Version → Bytes) (peer : Bytes) (s : Share) (plan : Plan)
      (os : List Outcome)
      → compute_merge_outcomes read blake3 diff plan.merges ≡ ok os
      → All (IsCandidate plan) plan.merges
      → Accepts s (length plan.merges)
      → (r : Share × Plan) × (materialize_merges read blake3 diff seal_id seal_base seal_version
            peer s plan
          ≡ ok r)
        × (verify_materialized_plan read blake3 diff r.1 plan ≡ ok tt)
        × (r.1.merges ≡ plan.merges)
        × ((p : Bytes) → Any (λ c. c.path ≡ p) plan.merges ⊎ AgreeAt p plan r.1)
  unfolding materialize_merges verify_materialized_plan Looped sort_conflicts
  materialize-verify seal_id seal_base seal_version peer s plan os h k t =
      let apart = in_path_order-AreApart plan.merges (outcomes-in_path_order plan.merges os h) in
      let (r, done, verified, others, same) =
        materialize_loop-Looped seal_id seal_base seal_version peer s plan plan.merges os apart k
          t in
      (
        (r.0, sort_conflicts r.1),
        rw (h, done) refl,
        rw h (
            verify_loop_ok (sort_conflicts r.1) plan.merges os
              (sorted-AreVerified r.1 plan.merges os verified)),
        same,
        λ p. elim (Apart-cases p plan.merges) [
          | inl there ↦ inl there
          | inr apart ↦
              let (records, conflicts) = others p apart in
              inr (records, conflicts_at-sort p r.1 ∙ conflicts)
        ],
      )
