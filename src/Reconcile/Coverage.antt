-- ===== src/Reconcile/Coverage.antt =====
-- src/reconcile.rs: which paths a plan has records for, and in which order.
use file_local.Prelude.{
  ◌≡◌, refl, ◌≢◌, Bool, Option, none, some, List, [], ◌∷◌, map, arith, ◌∙◌, ap, ◌⊎◌, inl, inr, ◌||◌,
  any, All, All-map, holds,
}
use file_local.Prelude.Order.{cmp_bytes-IsOrder as O}
use file_local.Prelude.Sorted.{
  get, insert, keys, insert_key, insert_keys, Ascending, insert_keys-Ascending, keys-insert,
}
use file_local.Model.{Bytes, Bytes-discrete, Record}
use file_local.Reconcile.Choice.{both-records, newer-cases}
use mathlib.Core.List.{map-append}
use file_local.Reconcile.{at_path, plan_of, paths, by_path, by_path_onto, reconcile}

abbrev pub record_paths : List Record → List Bytes
record_paths = map (λ r. r.path)

abbrev pub eq_path : Bytes → Bytes → Bool
eq_path p q = holds (Bytes-discrete p q)

-- A record of the list has this path.
abbrev pub has_path : Bytes → List Record → Bool
has_path p = any (λ r. eq_path r.path p)

abbrev pub has_key : Bytes → List Bytes → Bool
has_key p = any (λ q. eq_path q p)

has_key-insert_key :
    (p k : Bytes) (s : List Bytes) → has_key p (insert_key k s) ≡ (eq_path k p || has_key p s)
unfolding insert_key
has_key-insert_key p k [] = refl
has_key-insert_key p k (j ∷ s) = ground (arith, has_key-insert_key p k s, O.eq_of_cmp k j)

pub has_key-insert_keys :
    (p : Bytes) (ks s : List Bytes) → has_key p (insert_keys ks s) ≡ (has_key p ks || has_key p s)
unfolding insert_keys
has_key-insert_keys p [] s = refl
has_key-insert_keys p (k ∷ ks) s =
    ground (arith, has_key-insert_keys p ks (insert_key k s), has_key-insert_key p k s)

has_key-by_path_onto :
    (p : Bytes) (m : List (Bytes × Record)) (rs : List Record)
    → has_key p (keys (by_path_onto m rs)) ≡ (has_path p rs || has_key p (keys m))
unfolding by_path_onto
has_key-by_path_onto p m [] = refl
has_key-by_path_onto p m (r ∷ rs) = ground (
  arith,
  has_key-by_path_onto p (insert r.path r m) rs,
  keys-insert r.path r m,
  has_key-insert_key p r.path (keys m),
)

has_key-paths :
    (p : Bytes) (local remote : List Record)
    → has_key p (paths local remote) ≡ (has_path p local || has_path p remote)
unfolding paths by_path keys
has_key-paths p local remote = ground (
  arith,
  has_key-insert_keys p (keys (by_path remote)) (insert_keys (keys (by_path local)) []),
  has_key-insert_keys p (keys (by_path local)) [],
  has_key-by_path_onto p [] local,
  has_key-by_path_onto p [] remote,
)

-- Each record of a map stands under its own path.
abbrev pub IsKeyed : List (Bytes × Record) → Type 0
IsKeyed [] = Unit {0}
IsKeyed ((k, r) ∷ m) = (r.path ≡ k) × IsKeyed m

insert-IsKeyed : (r : Record) (m : List (Bytes × Record)) → IsKeyed m → IsKeyed (insert r.path r m)
unfolding insert
insert-IsKeyed r [] h = (refl, tt)
insert-IsKeyed r ((j, w) ∷ m) h = ground (arith, insert-IsKeyed r m h.1)

by_path_onto-IsKeyed :
    (m : List (Bytes × Record)) (rs : List Record) → IsKeyed m → IsKeyed (by_path_onto m rs)
unfolding by_path_onto
by_path_onto-IsKeyed m [] h = h
by_path_onto-IsKeyed m (r ∷ rs) h =
    by_path_onto-IsKeyed (insert r.path r m) rs (insert-IsKeyed r m h)

pub by_path-IsKeyed : (rs : List Record) → IsKeyed (by_path rs)
unfolding by_path
by_path-IsKeyed rs = by_path_onto-IsKeyed [] rs tt

pub path_of_get :
    (p : Bytes) (m : List (Bytes × Record)) (r : Record) → IsKeyed m → get p m ≡ some r → r.path ≡ p
unfolding get
path_of_get p [] r h e = cc
path_of_get p ((j, w) ∷ m) r h e = ground (arith, path_of_get p m r h.1, O.eq_of_cmp p j)

-- Every key has a value.
abbrev pub IsPresent : List (Bytes × Record) → List (Bytes × Record) → Bytes → Type 0
IsPresent local remote p = (get p local ≢ none) ⊎ (get p remote ≢ none)

keys-present : (m : List (Bytes × Record)) → All (λ p. get p m ≢ none) (keys m)
unfolding keys get
keys-present [] = tt
keys-present ((k, r) ∷ m) =
    (ground (arith, O.cmp_self k), All-map _ _ (keys m) (λ p h. ground arith) (keys-present m))

insert_key-All :
    (P : Bytes → Type 0) (k : Bytes) (s : List Bytes) → P k → All P s → All P (insert_key k s)
unfolding insert_key
insert_key-All P k [] h hs = (h, tt)
insert_key-All P k (j ∷ s) h hs = ground (arith, insert_key-All P k s h hs.1)

insert_keys-All :
    (P : Bytes → Type 0) (ks s : List Bytes) → All P ks → All P s → All P (insert_keys ks s)
unfolding insert_keys
insert_keys-All P [] s h hs = hs
insert_keys-All P (k ∷ ks) s h hs =
    insert_keys-All P ks (insert_key k s) h.1 (insert_key-All P k s h.0 hs)

pub paths-IsPresent :
    (local remote : List Record)
    → All (IsPresent (by_path local) (by_path remote)) (paths local remote)
unfolding paths
paths-IsPresent local remote =
    insert_keys-All _ (keys (by_path remote)) _
      (All-map _ _ _ (λ p h. inr h) (keys-present (by_path remote)))
      (insert_keys-All _ (keys (by_path local)) []
        (All-map _ _ _ (λ p h. inl h) (keys-present (by_path local))) tt)

at_path-paths :
    (p : Bytes) (x y : Option Record)
    → ((r : Record) → x ≡ some r → r.path ≡ p)
    → ((r : Record) → y ≡ some r → r.path ≡ p)
    → (x ≢ none) ⊎ (y ≢ none)
    → record_paths (at_path x y).records ≡ p ∷ []
unfolding at_path
at_path-paths p (some a) (some b) hx hy h =
    rw (both-records a b) (ground (arith, newer-cases a b, hx a, hy b))
at_path-paths p (some a) none hx hy h = rw (hx a refl) refl
at_path-paths p none (some b) hx hy h = rw (hy b refl) refl
at_path-paths p none none hx hy h = ground arith

plan_of-paths :
    (local remote : List (Bytes × Record)) (ps : List Bytes)
    → IsKeyed local
    → IsKeyed remote
    → All (IsPresent local remote) ps
    → record_paths (plan_of local remote ps).records ≡ ps
unfolding plan_of
plan_of-paths local remote [] hl hr h = refl
plan_of-paths local remote (p ∷ ps) hl hr h = rw (
  map-append,
  at_path-paths p (get p local) (get p remote) (λ r. path_of_get p local r hl)
      (λ r. path_of_get p remote r hr) h.0,
  plan_of-paths local remote ps hl hr h.1,
)

pub reconcile-record_paths :
    (local remote : List Record)
    → record_paths (reconcile local remote).records ≡ paths local remote
unfolding reconcile
reconcile-record_paths local remote =
    plan_of-paths (by_path local) (by_path remote) (paths local remote) (by_path-IsKeyed local)
      (by_path-IsKeyed remote) (paths-IsPresent local remote)

pub paths-Ascending : (local remote : List Record) → Ascending (paths local remote)
unfolding paths
paths-Ascending local remote = insert_keys-Ascending _ _ (insert_keys-Ascending _ [] tt)

has_path-map : (p : Bytes) (rs : List Record) → has_path p rs ≡ has_key p (record_paths rs)
has_path-map p [] = refl
has_path-map p (r ∷ rs) = rw (has_path-map p rs)

-- The plan has exactly one record for each path that either side has a record for, and no other;
-- its records ascend by path.
pub reconcile-Covers :
    (local remote : List Record)
    → Ascending (record_paths (reconcile local remote).records)
      × ((p : Bytes)
          → has_path p (reconcile local remote).records ≡ (has_path p local || has_path p remote))
reconcile-Covers local remote = (
  rw (reconcile-record_paths local remote) (paths-Ascending local remote),
  λ p.
      has_path-map p _
      ∙ ap (has_key p) (reconcile-record_paths local remote)
      ∙ has_key-paths p local remote,
)
