-- ===== src/Sync/Materialize/Reconciled.antt =====
-- src/sync.rs: the materialization of a plan that `reconcile` makes.
use file_local.Prelude.{
  ◌≡◌, ◌≢◌, refl, sym, ◌∙◌, ap, true, false, Option, none, some, List, [], ◌∷◌, ◌++◌, arith, All,
  All-append, Ordering, ◌⊎◌,
}
use file_local.Prelude.Order.{cmp_bytes, cmp_bytes-IsOrder as O}
use file_local.Prelude.Sorted.{Ascending, Below, get}
use file_local.Model.{Bytes, Record}
use file_local.Reconcile.{
  MergeCandidate, Plan, at_path, both, by_path, join, merge_files, paths, plan_of, reconcile,
  resolve,
}
use file_local.Reconcile.Coverage.{
  IsKeyed, IsPresent, by_path-IsKeyed, path_of_get, paths-Ascending, paths-IsPresent,
}
use file_local.Sync.Outcomes.{in_path_order}
use file_local.Sync.Materialize.{find_record, is_path}
use file_local.Sync.Materialize.Edits.{is_path_ne, is_path_self}
use file_local.Sync.Materialize.Verified.{IsCandidate}
use file_local.Sync.Materialize.Agreement.{Precedes}

-- The plan for one path: its record, and at most one candidate with that record as winner.
abbrev LocalTo : Bytes → List Record → List MergeCandidate → Type 0
LocalTo p (r ∷ []) [] = r.path ≡ p
LocalTo p (r ∷ []) (c ∷ []) = (r.path ≡ p) × (c.path ≡ p) × (c.winner ≡ r)
LocalTo p (r ∷ []) (c ∷ d ∷ cs) = ⊥
LocalTo p [] cs = ⊥
LocalTo p (r ∷ s ∷ rs) cs = ⊥

merge_files-LocalTo :
    (p : Bytes) (w l : Record)
    → w.path ≡ p
    → LocalTo p (merge_files w l).records (merge_files w l).merges
unfolding merge_files
merge_files-LocalTo p w l e = ground arith

resolve-LocalTo :
    (p : Bytes) (w l : Record) → w.path ≡ p → LocalTo p (resolve w l).records (resolve w l).merges
unfolding resolve
resolve-LocalTo p w l e = ground (arith, merge_files-LocalTo p w l e)

both-LocalTo :
    (p : Bytes) (a b : Record)
    → a.path ≡ p
    → b.path ≡ p
    → LocalTo p (both a b).records (both a b).merges
unfolding both
both-LocalTo p a b e f = ground (arith, resolve-LocalTo p a b e, resolve-LocalTo p b a f)

at_path-LocalTo :
    (p : Bytes) (x y : Option Record)
    → ((r : Record) → x ≡ some r → r.path ≡ p)
    → ((r : Record) → y ≡ some r → r.path ≡ p)
    → (x ≢ none) ⊎ (y ≢ none)
    → LocalTo p (at_path x y).records (at_path x y).merges
unfolding at_path
at_path-LocalTo p (some a) (some b) hx hy h = both-LocalTo p a b (hx a refl) (hy b refl)
at_path-LocalTo p (some a) none hx hy h = hx a refl
at_path-LocalTo p none (some b) hx hy h = hy b refl
at_path-LocalTo p none none hx hy h = ground arith

local-Precedes :
    (k p : Bytes) (rs : List Record) (cs : List MergeCandidate)
    → LocalTo p rs cs
    → cmp_bytes k p ≡ Ordering.lt
    → Precedes k cs
local-Precedes k p (r ∷ []) [] h e = tt
local-Precedes k p (r ∷ []) (c ∷ []) h e = (ground (arith, h.1), tt)
local-Precedes k p (r ∷ []) (c ∷ d ∷ cs) h e = absurd h
local-Precedes k p [] cs h e = absurd h
local-Precedes k p (r ∷ s ∷ rs) cs h e = absurd h

local-path :
    (p : Bytes) (r : Record) (cs : List MergeCandidate) → LocalTo p (r ∷ []) cs → r.path ≡ p
local-path p r [] h = h
local-path p r (c ∷ []) h = h.0
local-path p r (c ∷ d ∷ cs) h = absurd h

find-later :
    (p q : Bytes) (rs : List Record) (cs : List MergeCandidate) (rest : List Record)
    → LocalTo p rs cs
    → cmp_bytes p q ≡ Ordering.lt
    → find_record q (rs ++ rest) ≡ find_record q rest
unfolding find_record
find-later p q (r ∷ []) cs rest h e =
    let at_p = local-path p r cs h in
    let away : is_path q r.path ≡ false =
      is_path_ne q r.path (λ f. ground (arith, O.cmp_self p, at_p, f)) in
    rw (away, find_record) refl
find-later p q [] cs rest h e = absurd h
find-later p q (r ∷ s ∷ rs) cs rest h e = absurd h

-- A candidate of the rest of the plan is still one with a record of an earlier path in front.
later-IsCandidate :
    (p : Bytes) (q rest : Plan) (cs : List MergeCandidate)
    → LocalTo p q.records q.merges
    → Precedes p cs
    → All (IsCandidate rest) cs
    → All (IsCandidate (join q rest)) cs
later-IsCandidate p q rest [] h e k = tt
later-IsCandidate p q rest (c ∷ cs) h e k = (
  (k.0.0, find-later p c.path q.records q.merges rest.records h e.0 ∙ k.0.1),
  later-IsCandidate p q rest cs h e.1 k.1,
)

first-IsCandidate :
    (p : Bytes) (rs : List Record) (cs : List MergeCandidate) (rest : List Record)
    → LocalTo p rs cs
    → All (λ c. (c.winner.path ≡ c.path) × (find_record c.path (rs ++ rest) ≡ some c.winner)) cs
unfolding find_record
first-IsCandidate p (r ∷ []) [] rest h = tt
first-IsCandidate p (r ∷ []) (c ∷ []) rest h =
    let same : r.path ≡ c.path = h.0 ∙ sym h.1 in
    let here : is_path c.path r.path ≡ true = rw same (is_path_self c.path) in
    ((ap (λ (x : Record). x.path) h.2 ∙ same, rw (here, find_record) (ap some (sym h.2))), tt)
first-IsCandidate p (r ∷ []) (c ∷ d ∷ cs) rest h = absurd h
first-IsCandidate p [] cs rest h = absurd h
first-IsCandidate p (r ∷ s ∷ rs) cs rest h = absurd h

in_path_order-cons :
    (c : MergeCandidate) (cs : List MergeCandidate)
    → Precedes c.path cs
    → in_path_order cs ≡ true
    → in_path_order (c ∷ cs) ≡ true
unfolding in_path_order
in_path_order-cons c [] h k = refl
in_path_order-cons c (d ∷ cs) h k = ground arith

local-in_path_order :
    (p : Bytes) (rs : List Record) (cs rest : List MergeCandidate)
    → LocalTo p rs cs
    → Precedes p rest
    → in_path_order rest ≡ true
    → in_path_order (cs ++ rest) ≡ true
local-in_path_order p (r ∷ []) [] rest h e k = k
local-in_path_order p (r ∷ []) (c ∷ []) rest h e k = in_path_order-cons c rest (rw (sym h.1) at e) k
local-in_path_order p (r ∷ []) (c ∷ d ∷ cs) rest h e k = absurd h
local-in_path_order p [] cs rest h e k = absurd h
local-in_path_order p (r ∷ s ∷ rs) cs rest h e k = absurd h

module _ (local remote : List (Bytes × Record)) (hl : IsKeyed local) (hr : IsKeyed remote) where
  here-LocalTo :
      (p : Bytes)
      → IsPresent local remote p
      → LocalTo p
          (at_path (get p local) (get p remote)).records
          (at_path (get p local) (get p remote)).merges
  here-LocalTo p h =
      at_path-LocalTo p (get p local) (get p remote) (λ r. path_of_get p local r hl)
        (λ r. path_of_get p remote r hr) h

  plan_of-Precedes :
      (k : Bytes) (ps : List Bytes)
      → Below k ps
      → All (IsPresent local remote) ps
      → Precedes k (plan_of local remote ps).merges
  unfolding plan_of
  plan_of-Precedes k [] h a = tt
  plan_of-Precedes k (p ∷ ps) h a =
      let q = at_path (get p local) (get p remote) in
      All-append _ q.merges (plan_of local remote ps).merges
        (local-Precedes k p q.records q.merges (here-LocalTo p a.0) h.0)
        (plan_of-Precedes k ps h.1 a.1)

  plan_of-IsCandidate :
      (ps : List Bytes)
      → Ascending ps
      → All (IsPresent local remote) ps
      → All (IsCandidate (plan_of local remote ps)) (plan_of local remote ps).merges
        × (in_path_order (plan_of local remote ps).merges ≡ true)
  unfolding plan_of in_path_order
  plan_of-IsCandidate [] h a = (tt, refl)
  plan_of-IsCandidate (p ∷ ps) h a =
      let q = at_path (get p local) (get p remote) in
      let rest = plan_of local remote ps in
      let here = here-LocalTo p a.0 in
      let (candidates, ordered) = plan_of-IsCandidate ps h.1 a.1 in
      let after = plan_of-Precedes p ps h.0 a.1 in
      (
        All-append _ q.merges rest.merges (first-IsCandidate p q.records q.merges rest.records here)
            (later-IsCandidate p q rest rest.merges here after candidates),
        local-in_path_order p q.records q.merges rest.merges here after ordered,
      )

-- The candidates of a plan that `reconcile` makes are in path order, and the plan has the winner of
-- each at its path.
pub reconcile-IsCandidate :
    (local remote : List Record)
    → All (IsCandidate (reconcile local remote)) (reconcile local remote).merges
      × (in_path_order (reconcile local remote).merges ≡ true)
unfolding reconcile
reconcile-IsCandidate local remote =
    plan_of-IsCandidate (by_path local) (by_path remote) (by_path-IsKeyed local)
      (by_path-IsKeyed remote) (paths local remote) (paths-Ascending local remote)
      (paths-IsPresent local remote)
