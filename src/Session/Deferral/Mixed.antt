-- ===== src/Session/Deferral/Mixed.antt =====
-- src/main.rs: the records of an effective plan.
use file_local.Prelude.{
  ◌≡◌, refl, ◌∙◌, ap, Bool, false, not, none, some, List, [], ◌∷◌, ◌++◌, any, keep, if◌then◌else◌,
  arith, Option-cases, inl, inr,
}
use file_local.Model.{Bytes, Record}
use file_local.Reconcile.{Plan}
use file_local.Sync.Materialize.{find_record, is_path}
use file_local.Sync.Heads.Lookup.{AreUnique, find_record-path, find_record-sort_by}
use file_local.Sync.Heads.InOrder.{find_record-keep}
use file_local.Session.Deferral.{
  effective_plan, is_deferred, is_stable, mix, parents, root_from, roots,
}

find_record-append :
    (p : Bytes) (rs qs : List Record)
    → find_record p (rs ++ qs)
      ≡ (elim (find_record p rs) [ none ↦ find_record p qs | some r ↦ some r ])
unfolding find_record
find_record-append p [] qs = refl
find_record-append p (r ∷ rs) qs = ground (arith, find_record-append p rs qs)

keep_at :
    (f : Bytes → Bool) (p : Bytes) (rs : List Record)
    → AreUnique rs
    → find_record p (keep (λ r. f r.path) rs) ≡ (if f p then find_record p rs else none)
keep_at f p rs u =
    find_record-keep (λ r. f r.path) p rs u ∙ elim (Option-cases (find_record p rs)) [
      | inl e ↦ rw e ground arith
      | inr (r, e) ↦ rw (e, find_record-path p rs r e) refl
    ]

-- At a deferred path a side keeps its own record, and has no other; everywhere else it has the
-- record of the full plan.
pub mix-find_record :
    (rs : List Bytes) (side : List Record) (full : Plan) (p : Bytes)
    → AreUnique side
    → AreUnique full.records
    → find_record p (mix rs side full).plan.records
      ≡ (if is_deferred rs p then find_record p side else find_record p full.records)
unfolding mix
mix-find_record rs side full p u v =
    find_record-sort_by p (
      keep (λ r. not (is_deferred rs r.path)) full.records
      ++ keep (λ r. is_deferred rs r.path) side)
    ∙ find_record-append p (keep (λ r. not (is_deferred rs r.path)) full.records)
        (keep (λ r. is_deferred rs r.path) side)
    ∙ ground (
      arith,
      keep_at (λ q. not (is_deferred rs q)) p full.records v,
      keep_at (is_deferred rs) p side u,
    )

none_deferred :
    (p : Bytes) (ps : List Bytes)
    → any (λ ancestor. any (λ root. is_path ancestor root) []) (p ∷ ps) ≡ false
none_deferred p [] = refl
none_deferred p (q ∷ ps) = none_deferred q ps

-- The roots of a round.
abbrev pub round_roots : List Record → List Record → Plan → List Bytes → List Bytes
round_roots side other full deferred = roots (is_stable side other full.records) deferred

is_stable_comm :
    (side other target : List Record) (p : Bytes)
    → is_stable side other target p ≡ is_stable other side target p
unfolding is_stable
is_stable_comm side other target p = ground arith

root_from_same :
    (f g : Bytes → Bool) (seed : Bytes) (ps : List Bytes)
    → ((p : Bytes) → f p ≡ g p)
    → root_from f seed ps ≡ root_from g seed ps
unfolding root_from
root_from_same f g seed [] h = refl
root_from_same f g seed (p ∷ ps) h = rw (h p, root_from_same f g seed ps h) refl

roots_same :
    (f g : Bytes → Bool) (seeds : List Bytes)
    → ((p : Bytes) → f p ≡ g p)
    → roots f seeds ≡ roots g seeds
unfolding roots
roots_same f g [] h = refl
roots_same f g (seed ∷ seeds) h =
    rw (root_from_same f g seed (parents seed) h, roots_same f g seeds h) refl

records-effective_plan :
    (side other : List Record) (full : Plan) (deferred : List Bytes) (p : Bytes)
    → AreUnique side
    → AreUnique full.records
    → find_record p (effective_plan side other full deferred).plan.records ≡ (
        if is_deferred (round_roots side other full deferred) p
        then find_record p side
        else find_record p full.records)
unfolding effective_plan roots is_deferred
records-effective_plan side other full [] p u v = rw (none_deferred p (parents p)) refl
records-effective_plan side other full (d ∷ ds) p u v =
    mix-find_record (round_roots side other full (d ∷ ds)) side full p u v

-- Each side keeps its own record, or none, at a deferred path, and takes the record of the full plan
-- everywhere else; the two sides defer the same paths and apply the same conflicts and merges.
pub effective_plan-find_record :
    (side other : List Record) (full : Plan) (deferred : List Bytes)
    → AreUnique side
    → AreUnique full.records
    → ((p : Bytes)
        → find_record p (effective_plan side other full deferred).plan.records ≡ (
            if is_deferred (round_roots side other full deferred) p
            then find_record p side
            else find_record p full.records))
      × ((round_roots side other full deferred ≡ round_roots other side full deferred)
          × (((effective_plan side other full deferred).plan.conflicts
                ≡ (effective_plan other side full deferred).plan.conflicts)
              × ((effective_plan side other full deferred).plan.merges
                  ≡ (effective_plan other side full deferred).plan.merges)))
unfolding effective_plan mix
effective_plan-find_record side other full deferred u v =
    let same =
      roots_same (is_stable side other full.records) (is_stable other side full.records) deferred
        (is_stable_comm side other full.records) in
    (
      (λ p. records-effective_plan side other full deferred p u v),
      (same, (conflicts_same deferred same, merges_same deferred same)),
    )
  where
    conflicts_same :
        (d : List Bytes)
        → round_roots side other full d ≡ round_roots other side full d
        → (effective_plan side other full d).plan.conflicts
          ≡ (effective_plan other side full d).plan.conflicts
    conflicts_same [] e = refl
    conflicts_same (x ∷ xs) e = ap (λ rs. keep (λ c. not (is_deferred rs c.path)) full.conflicts) e

    merges_same :
        (d : List Bytes)
        → round_roots side other full d ≡ round_roots other side full d
        → (effective_plan side other full d).plan.merges
          ≡ (effective_plan other side full d).plan.merges
    merges_same [] e = refl
    merges_same (x ∷ xs) e = ap (λ rs. keep (λ c. not (is_deferred rs c.path)) full.merges) e
