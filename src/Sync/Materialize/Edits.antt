-- ===== src/Sync/Materialize/Edits.antt =====
-- src/sync.rs: what an edit of a plan at one path leaves at each path.
use mathlib.Core.List.{append-nil}
use file_local.Prelude.{
  ◌≡◌, ◌≢◌, refl, sym, ◌∙◌, ap, true, false, some, List, [], ◌∷◌, ◌++◌, arith, keep, Bool-cases,
  Option-cases, inl, inr,
}
use file_local.Prelude.Sort.{keep-sort_by}
use file_local.Model.{Bytes, Bytes-discrete, Record}
use file_local.Merge.Types.{ConflictHunk, FallbackReason}
use file_local.Reconcile.{Conflict, MergeCandidate, Plan, merged_conflict, whole_file_conflict}
use file_local.Sync.Materialize.{
  conflicts_at, fallback_conflict, find_record, is_path, overlap_conflicts, replace_record,
  retain_conflicts, sort_conflicts,
}

pub is_path_eq : (p q : Bytes) → is_path p q ≡ true → q ≡ p
unfolding Bytes-discrete
is_path_eq p q h = ground arith

pub is_path_self : (p : Bytes) → is_path p p ≡ true
unfolding Bytes-discrete
is_path_self p = ground arith

pub is_path_ne : (p q : Bytes) → q ≢ p → is_path p q ≡ false
unfolding Bytes-discrete
is_path_ne p q h = ground arith

pub find-replace :
    (p : Bytes) (result old : Record) (rs : List Record)
    → result.path ≡ p
    → find_record p rs ≡ some old
    → (rs' : List Record) × (replace_record p result rs ≡ some rs')
      × (find_record p rs' ≡ some result)
unfolding find_record replace_record
find-replace p result old [] e h = cc
find-replace p result old (r ∷ rs) e h = elim (Bool-cases (is_path p r.path)) [
  | inl here ↦ (result ∷ rs, rw (here, replace_record) refl, ground (arith, is_path_self p))
  | inr away ↦
      let later : find_record p rs ≡ some old = ground arith in
      let (rs', replaced, found) = find-replace p result old rs e later in
      (r ∷ rs', ground arith, ground arith)
]

pub find-replace_other :
    (p q : Bytes) (result : Record) (rs rs' : List Record)
    → result.path ≡ q
    → p ≢ q
    → replace_record q result rs ≡ some rs'
    → find_record p rs' ≡ find_record p rs
unfolding find_record replace_record
find-replace_other p q result [] rs' e n h = cc
find-replace_other p q result (r ∷ rs) rs' e n h = elim (Bool-cases (is_path q r.path)) [
  | inl here ↦
      let skips : is_path p r.path ≡ false =
        is_path_ne p r.path (λ f. n (sym f ∙ is_path_eq q r.path here)) in
      let skips' : is_path p result.path ≡ false = is_path_ne p result.path (λ f. n (sym f ∙ e)) in
      ground arith
  | inr away ↦ elim (Option-cases (replace_record q result rs)) [
    | inl none_there ↦ ground arith
    | inr (rest, there) ↦ ground (arith, find-replace_other p q result rs rest e n there)
  ]
]

-- The conflicts at a path, after those at another path are dropped or added.
conflicts_at-append :
    (p : Bytes) (cs ds : List Conflict)
    → conflicts_at p (cs ++ ds) ≡ conflicts_at p cs ++ conflicts_at p ds
unfolding conflicts_at keep
conflicts_at-append p [] ds = refl
conflicts_at-append p (c ∷ cs) ds = elim (Bool-cases (is_path p c.path)) [
  | inl e ↦ rw (e, keep) (ap (λ (t : List Conflict). c ∷ t) (conflicts_at-append p cs ds))
  | inr e ↦ rw (e, keep) (conflicts_at-append p cs ds)
]

conflicts_at-retain_other :
    (p q : Bytes) (cs : List Conflict)
    → p ≢ q
    → conflicts_at p (retain_conflicts q cs) ≡ conflicts_at p cs
unfolding conflicts_at retain_conflicts keep
conflicts_at-retain_other p q [] n = refl
conflicts_at-retain_other p q (c ∷ cs) n = elim (Bool-cases (is_path q c.path)) [
  | inl here ↦
      let skips : is_path p c.path ≡ false =
        is_path_ne p c.path (λ f. n (sym f ∙ is_path_eq q c.path here)) in
      ground (arith, conflicts_at-retain_other p q cs n)
  | inr away ↦ ground (arith, conflicts_at-retain_other p q cs n)
]

conflicts_at-retain_self :
    (p : Bytes) (cs : List Conflict) → conflicts_at p (retain_conflicts p cs) ≡ []
unfolding conflicts_at retain_conflicts keep
conflicts_at-retain_self p [] = refl
conflicts_at-retain_self p (c ∷ cs) = ground (arith, conflicts_at-retain_self p cs)

-- All the conflicts of a list are at the path.
abbrev pub AreAt : Bytes → List Conflict → Type 0
AreAt p [] = Unit {0}
AreAt p (c ∷ cs) = (c.path ≡ p) × AreAt p cs

conflicts_at-AreAt : (p : Bytes) (cs : List Conflict) → AreAt p cs → conflicts_at p cs ≡ cs
unfolding conflicts_at keep
conflicts_at-AreAt p [] h = refl
conflicts_at-AreAt p (c ∷ cs) h =
    let here : is_path p c.path ≡ true = rw (h.0) (is_path_self p) in
    rw (here, keep) (ap (λ (t : List Conflict). c ∷ t) (conflicts_at-AreAt p cs h.1))

conflicts_at-AreAt_other :
    (p q : Bytes) (cs : List Conflict) → p ≢ q → AreAt q cs → conflicts_at p cs ≡ []
unfolding conflicts_at keep
conflicts_at-AreAt_other p q [] n h = refl
conflicts_at-AreAt_other p q (c ∷ cs) n h =
    let away : is_path p c.path ≡ false = is_path_ne p c.path (λ f. n (sym f ∙ h.0)) in
    rw (away, keep) (conflicts_at-AreAt_other p q cs n h.1)

pub conflicts_at_replaced :
    (p : Bytes) (cs new : List Conflict)
    → AreAt p new
    → conflicts_at p (retain_conflicts p cs ++ new) ≡ new
conflicts_at_replaced p cs new h =
    conflicts_at-append p (retain_conflicts p cs) new
    ∙ ap (λ (t : List Conflict). t ++ conflicts_at p new) (conflicts_at-retain_self p cs)
    ∙ conflicts_at-AreAt p new h

pub conflicts_at_kept :
    (p q : Bytes) (cs new : List Conflict)
    → p ≢ q
    → AreAt q new
    → conflicts_at p (retain_conflicts q cs ++ new) ≡ conflicts_at p cs
conflicts_at_kept p q cs new n h =
    conflicts_at-append p (retain_conflicts q cs) new
    ∙ ap (λ (t : List Conflict). conflicts_at p (retain_conflicts q cs) ++ t)
        (conflicts_at-AreAt_other p q new n h)
    ∙ append-nil (conflicts_at p (retain_conflicts q cs))
    ∙ conflicts_at-retain_other p q cs n

pub conflicts_at-sort :
    (p : Bytes) (plan : Plan)
    → conflicts_at p (sort_conflicts plan).conflicts ≡ conflicts_at p plan.conflicts
unfolding conflicts_at sort_conflicts
conflicts_at-sort p plan =
    keep-sort_by (λ c. c.path) (λ c. is_path p c.path) p plan.conflicts
      (λ c h. is_path_eq p c.path h)

pub overlap_conflicts-AreAt :
    (c : MergeCandidate) (result : Record) (hunks : List ConflictHunk)
    → c.winner.path ≡ c.path
    → AreAt c.path (overlap_conflicts c result hunks)
unfolding merged_conflict
overlap_conflicts-AreAt c result [] e = tt
overlap_conflicts-AreAt c result (h ∷ hunks) e = (e, tt)

pub fallback_conflict-AreAt :
    (c : MergeCandidate) (reason : FallbackReason)
    → c.winner.path ≡ c.path
    → AreAt c.path (fallback_conflict c reason ∷ [])
unfolding whole_file_conflict
fallback_conflict-AreAt c reason e = (e, tt)
