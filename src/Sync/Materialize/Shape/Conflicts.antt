-- ===== src/Sync/Materialize/Shape/Conflicts.antt =====
-- src/sync.rs: the conflicts of a plan that passes `validate_materialized_plan_shape`.
use file_local.Prelude.{
  ◌≡◌, some, List, [], ◌∷◌, arith, All, ◌⊎◌, inl, inr, Bool-cases, Any, true, false, refl, keep,
  holds, Option,
}
use file_local.Prelude.Results.{first_ok, ok}
use file_local.Model.{BaseVersion, Record-discrete, Bytes, Bytes-discrete, Record}
use file_local.Reconcile.{Conflict, MergeCandidate, Plan}
use file_local.Sync.Materialize.{conflicts_at, is_path}
use file_local.Sync.Materialize.Edits.{is_path_eq}
use file_local.Sync.Materialize.Shape.{
  base-discrete, contains, check_candidates, check_outcomes, is_candidate_path, ordinary_conflicts,
}

-- The conflicts of a list that are at a path.
abbrev pub conflicts_of : Bytes → List Conflict → List Conflict
conflicts_of p ks = keep (λ k. holds (Bytes-discrete k.path p)) ks

pub is_candidate_path-Any :
    (p : Bytes) (cs : List MergeCandidate)
    → is_candidate_path cs p ≡ true
    → Any (λ c. c.path ≡ p) cs
is_candidate_path-Any p [] h = cc
is_candidate_path-Any p (c ∷ cs) h = elim (Bool-cases (is_path p c.path)) [
  | inl e ↦ inl (is_path_eq p c.path e)
  | inr e ↦ inr (is_candidate_path-Any p cs (ground arith))
]

-- A path without a candidate has the same conflicts among the ordinary ones as among all.
pub conflicts_of-ordinary :
    (p : Bytes) (cs : List MergeCandidate) (ks : List Conflict)
    → is_candidate_path cs p ≡ false
    → conflicts_of p (ordinary_conflicts cs ks) ≡ conflicts_of p ks
unfolding ordinary_conflicts keep
conflicts_of-ordinary p cs [] h = refl
conflicts_of-ordinary p cs (k ∷ ks) h =
    let rest = conflicts_of-ordinary p cs ks h in
    elim (Bool-cases (is_path p k.path)) [
      | inl e ↦
          let ordinary : is_candidate_path cs k.path ≡ false = rw (is_path_eq p k.path e) h in
          ground arith
      | inr e ↦ ground arith
    ]

-- The conflicts at a candidate's path: none, or one with the candidate's base and inputs.
abbrev pub IsOutcome : MergeCandidate → List Conflict → Type 0
IsOutcome c ks =
    (ks ≡ [])
    ⊎ ((k : Conflict) × (ks ≡ k ∷ [])
        × (k.base ≡ some c.base)
        × ((k.inputs.0 ≡ c.winner) ⊎ (k.inputs.1 ≡ c.winner))
        × ((k.inputs.0 ≡ c.loser) ⊎ (k.inputs.1 ≡ c.loser)))

is_base_eq :
    (b : Option BaseVersion) (base : BaseVersion)
    → holds (base-discrete b (some base)) ≡ true
    → b ≡ some base
is_base_eq b base h = ground arith

contains_lem : (p : Record × Record) (r : Record) → contains p r ≡ true → (p.0 ≡ r) ⊎ (p.1 ≡ r)
contains_lem (a, b) r h = elim (Bool-cases (holds (Record-discrete a r))) [
  | inl e ↦ inl (ground arith)
  | inr e ↦ inr (ground arith)
]

check_outcomes-IsOutcome :
    (c : MergeCandidate) (ks : List Conflict) → check_outcomes c ks ≡ ok tt → IsOutcome c ks
unfolding check_outcomes
check_outcomes-IsOutcome c [] h = inl refl
check_outcomes-IsOutcome c (k ∷ []) h = inr (
  k,
  refl,
  is_base_eq k.base c.base (ground arith),
  contains_lem k.inputs c.winner (ground arith),
  contains_lem k.inputs c.loser (ground arith),
)
check_outcomes-IsOutcome c (k ∷ l ∷ ks) h = cc

pub check_candidates-IsOutcome :
    (proposed : Plan) (cs : List MergeCandidate)
    → check_candidates proposed cs ≡ ok tt
    → All (λ c. IsOutcome c (conflicts_of c.path proposed.conflicts)) cs
unfolding check_candidates conflicts_at
check_candidates-IsOutcome proposed [] h = tt
check_candidates-IsOutcome proposed (c ∷ cs) h =
    let (u, (first, rest)) =
      first_ok (λ u. check_candidates proposed cs)
        (check_outcomes c (conflicts_at c.path proposed.conflicts)) tt h in
    (check_outcomes-IsOutcome c _ first, check_candidates-IsOutcome proposed cs rest)
