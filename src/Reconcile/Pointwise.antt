-- ===== src/Reconcile/Pointwise.antt =====
-- src/reconcile.rs: the plan as a function of each path.
use file_local.Prelude.{
  ◌≡◌, refl, ◌≢◌, false, Option, none, some, List, [], ◌∷◌, arith, ap, ◌⊎◌, inl, inr, All,
  if◌then◌else◌,
}
use file_local.Prelude.Order.{cmp_bytes-IsOrder as O}
use file_local.Prelude.Sorted.{Ascending, Below, get, keys, insert_keys}
use file_local.Model.{Bytes, Record}
use file_local.Reconcile.{at_path, plan_of, paths, by_path, reconcile}
use file_local.Reconcile.Choice.{newer, newest, both-records, newer-cases}
use file_local.Reconcile.Coverage.{
  IsKeyed, IsPresent, by_path-IsKeyed, has_key, has_key-insert_keys, path_of_get, paths-IsPresent,
  paths-Ascending,
}
use file_local.Reconcile.Convergence.{by_path-entries, entries, records-Ascending}

has_key-Below : (k : Bytes) (s : List Bytes) → Below k s → has_key k s ≡ false
has_key-Below k [] b = refl
has_key-Below k (j ∷ s) b = ground (arith, has_key-Below k s b.1, O.cmp_self k)

pub get-has_key :
    {V : Type 0} (p : Bytes) (m : List (Bytes × V)) → has_key p (keys m) ≡ false → get p m ≡ none
unfolding get keys
get-has_key p [] h = refl
get-has_key p ((j, w) ∷ m) h = ground (arith, get-has_key p m, O.eq_of_cmp p j)

at_path-newest :
    (x y : Option Record)
    → (x ≢ none) ⊎ (y ≢ none)
    → (c : Record) × (newest x y ≡ some c) × ((at_path x y).records ≡ c ∷ [])
unfolding at_path
at_path-newest (some a) (some b) h = (newer a b, refl, both-records a b)
at_path-newest (some a) none h = (a, refl, refl)
at_path-newest none (some b) h = (b, refl, refl)
at_path-newest none none (inl h) = absurd (h refl)
at_path-newest none none (inr h) = absurd (h refl)

newest-path :
    (p : Bytes) (x y : Option Record) (c : Record)
    → ((r : Record) → x ≡ some r → r.path ≡ p)
    → ((r : Record) → y ≡ some r → r.path ≡ p)
    → newest x y ≡ some c
    → c.path ≡ p
newest-path p (some a) (some b) c hx hy e = ground (arith, newer-cases a b, hx a, hy b)
newest-path p (some a) none c hx hy e = hx c e
newest-path p none y c hx hy e = hy c e

module _ (local remote : List (Bytes × Record)) (hl : IsKeyed local) (hr : IsKeyed remote) where
  get-plan_of :
      (p : Bytes) (ps : List Bytes)
      → Ascending ps
      → All (IsPresent local remote) ps
      → get p (entries (plan_of local remote ps).records)
        ≡ (if has_key p ps then newest (get p local) (get p remote) else none)
  unfolding plan_of get
  get-plan_of p [] a h = refl
  get-plan_of p (q ∷ ps) a h =
      let (c, e, f) = at_path-newest (get q local) (get q remote) h.0 in
      let g : c.path ≡ q =
        newest-path q (get q local) (get q remote) c (λ r. path_of_get q local r hl)
          (λ r. path_of_get q remote r hr) e in
      rw f (
        ground (
          arith,
          g,
          e,
          get-plan_of p ps a.1 h.1,
          O.eq_of_cmp p q,
          O.cmp_self q,
          has_key-Below q ps a.0,
        ))

newest-absent :
    (local remote : List Record) (p : Bytes)
    → has_key p (paths local remote) ≡ false
    → newest (get p (by_path local)) (get p (by_path remote)) ≡ none
unfolding paths
newest-absent local remote p h =
    let kl = keys (by_path local) in
    let kr = keys (by_path remote) in
    ground (
      arith,
      has_key-insert_keys p kr (insert_keys kl []),
      has_key-insert_keys p kl [],
      get-has_key p (by_path local),
      get-has_key p (by_path remote),
    )

-- At every path the plan has the newer of the two sides' records there, by causality and then by
-- the last writer; at a path that one side lacks it has the other side's record.
pub reconcile-newest :
    (local remote : List Record) (p : Bytes)
    → get p (by_path (reconcile local remote).records)
      ≡ newest (get p (by_path local)) (get p (by_path remote))
unfolding reconcile
reconcile-newest local remote p =
    let g =
      get-plan_of (by_path local) (by_path remote) (by_path-IsKeyed local) (by_path-IsKeyed remote)
        p (paths local remote) (paths-Ascending local remote) (paths-IsPresent local remote) in
    rw (by_path-entries _ (records-Ascending local remote))
      (ground (arith, g, newest-absent local remote p))

newer_again_left : (a b : Record) → newer (newer a b) b ≡ newer a b
newer_again_left a b = ground (arith)

newer_again_right : (a b : Record) → newer a (newer a b) ≡ newer a b
newer_again_right a b = ground (arith)

newest_again_left : (x y : Option Record) → newest (newest x y) y ≡ newest x y
newest_again_left none none = refl
newest_again_left none (some b) = ground arith
newest_again_left (some a) none = refl
newest_again_left (some a) (some b) = ap some (newer_again_left a b)

newest_again_right : (x y : Option Record) → newest x (newest x y) ≡ newest x y
newest_again_right none y = refl
newest_again_right (some a) none = ground arith
newest_again_right (some a) (some b) = ap some (newer_again_right a b)

-- If only one side has installed a plan when the round is cut off, the next round plans the same
-- record at every path, whichever side it was.
pub reconcile_resumes :
    (local remote : List Record) (p : Bytes)
    → let rs = (reconcile local remote).records in
      (get p (by_path (reconcile rs remote).records) ≡ get p (by_path rs))
      × (get p (by_path (reconcile local rs).records) ≡ get p (by_path rs))
reconcile_resumes local remote p =
    let x = get p (by_path local) in
    let y = get p (by_path remote) in
    (
      rw
          (
            reconcile-newest (reconcile local remote).records remote p,
            reconcile-newest local remote p,
          )
          (newest_again_left x y),
      rw
          (
            reconcile-newest local (reconcile local remote).records p,
            reconcile-newest local remote p,
          )
          (newest_again_right x y),
    )
