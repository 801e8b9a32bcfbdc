-- ===== src/Reconcile/Convergence.antt =====
-- src/reconcile.rs: the plan as a function of each path, and what a second round does.
use file_local.Prelude.{◌≡◌, refl, some, List, [], ◌∷◌, ◌++◌, map, arith, ◌∙◌, ap, sym, All}
use mathlib.Core.List.{append_assoc, append-nil}
use file_local.Prelude.Order.{cmp_bytes-IsOrder as O}
use file_local.Prelude.Sorted.{
  Above, Above-append, Ascending, Below, get, insert, insert-Above, keys, keys-insert, insert_key,
  insert_keys,
}
use file_local.Model.{Bytes, Record}
use file_local.Reconcile.{
  Plan, both, at_path, only, plan_of, paths, by_path, by_path_onto, reconcile,
}
use file_local.Reconcile.Coverage.{record_paths, reconcile-record_paths, paths-Ascending}

abbrev pub entries : List Record → List (Bytes × Record)
entries = map (λ r. (r.path, r))

pub keys-entries : (rs : List Record) → keys (entries rs) ≡ record_paths rs
unfolding keys
keys-entries [] = refl
keys-entries (r ∷ rs) = rw (keys-entries rs)

abbrev AllAbove : List (Bytes × Record) → List Bytes → Type 0
AllAbove m = All (λ p. Above p m)

AllAbove-append :
    (k : Bytes) (r : Record) (m : List (Bytes × Record)) (ps : List Bytes)
    → AllAbove m ps
    → Below k ps
    → AllAbove (m ++ (k, r) ∷ []) ps
AllAbove-append k r m [] h b = tt
AllAbove-append k r m (p ∷ ps) h b =
    (Above-append p k r m h.0 b.0, AllAbove-append k r m ps h.1 b.1)

by_path_onto-entries :
    (m : List (Bytes × Record)) (rs : List Record)
    → AllAbove m (record_paths rs)
    → Ascending (record_paths rs)
    → by_path_onto m rs ≡ m ++ entries rs
unfolding by_path_onto
by_path_onto-entries m [] h a = sym (append-nil m)
by_path_onto-entries m (r ∷ rs) h a = rw (insert-Above r.path r m h.0) (
    by_path_onto-entries (m ++ (r.path, r) ∷ []) rs
      (AllAbove-append r.path r m (record_paths rs) h.1 a.0) a.1
    ∙ append_assoc m ((r.path, r) ∷ []) (entries rs))

AllAbove-nil : (ps : List Bytes) → AllAbove [] ps
AllAbove-nil [] = tt
AllAbove-nil (p ∷ ps) = (tt, AllAbove-nil ps)

pub by_path-entries : (rs : List Record) → Ascending (record_paths rs) → by_path rs ≡ entries rs
unfolding by_path
by_path-entries rs a = by_path_onto-entries [] rs (AllAbove-nil (record_paths rs)) a

keys-by_path_onto :
    (m : List (Bytes × Record)) (rs : List Record)
    → keys (by_path_onto m rs) ≡ insert_keys (record_paths rs) (keys m)
unfolding by_path_onto insert_keys
keys-by_path_onto m [] = refl
keys-by_path_onto m (r ∷ rs) =
    keys-by_path_onto (insert r.path r m) rs
    ∙ ap (insert_keys (record_paths rs)) (keys-insert r.path r m)

-- A plan of one record at each path.
abbrev pub quiet : List Record → Plan
quiet rs = record { records = rs; conflicts = []; merges = [] }

both_self : (r : Record) → both r r ≡ only r
unfolding both
both_self r = ground arith

plan_of_self :
    (m : List (Bytes × Record)) (rs : List Record)
    → All (λ r. get r.path m ≡ some r) rs
    → plan_of m m (record_paths rs) ≡ quiet rs
unfolding plan_of at_path
plan_of_self m [] h = refl
plan_of_self m (r ∷ rs) h = rw (h.0, at_path, both_self r, plan_of_self m rs h.1)

get-entries_skip :
    (k : Bytes) (r : Record) (m : List (Bytes × Record)) (rs : List Record)
    → Below k (record_paths rs)
    → All (λ q. get q.path m ≡ some q) rs
    → All (λ q. get q.path ((k, r) ∷ m) ≡ some q) rs
unfolding get
get-entries_skip k r m [] b h = tt
get-entries_skip k r m (s ∷ rs) b h =
    (ground (arith, b.0, O.cmp-reversed k s.path), get-entries_skip k r m rs b.1 h.1)

get-entries :
    (rs : List Record)
    → Ascending (record_paths rs)
    → All (λ q. get q.path (entries rs) ≡ some q) rs
unfolding get
get-entries [] a = tt
get-entries (r ∷ rs) a = (
  ground (arith, O.cmp_self r.path),
  get-entries_skip r.path r (entries rs) rs a.0 (get-entries rs a.1),
)

abbrev AllIn : List Bytes → List Bytes → Type 0
AllIn s = All (λ k. insert_key k s ≡ s)

insert_key-Below : (k : Bytes) (s : List Bytes) → Below k s → insert_key k s ≡ k ∷ s
unfolding insert_key
insert_key-Below k [] b = refl
insert_key-Below k (j ∷ s) b = ground arith

AllIn-cons : (k : Bytes) (s ks : List Bytes) → Below k ks → AllIn s ks → AllIn (k ∷ s) ks
unfolding insert_key
AllIn-cons k s [] b h = tt
AllIn-cons k s (j ∷ ks) b h =
    (ground (arith, b.0, h.0, O.cmp-reversed k j), AllIn-cons k s ks b.1 h.1)

AllIn-self : (s : List Bytes) → Ascending s → AllIn s s
unfolding insert_key
AllIn-self [] a = tt
AllIn-self (k ∷ s) a = (ground (arith, O.cmp_self k), AllIn-cons k s s a.0 (AllIn-self s a.1))

insert_keys-AllIn : (s ks : List Bytes) → AllIn s ks → insert_keys ks s ≡ s
unfolding insert_keys
insert_keys-AllIn s [] h = refl
insert_keys-AllIn s (k ∷ ks) h = rw (h.0) (insert_keys-AllIn s ks h.1)

paths_self : (rs : List Record) → Ascending (record_paths rs) → paths rs rs ≡ record_paths rs
unfolding paths by_path keys
paths_self rs a =
    let e = (by_path-entries rs a) in
    let ks : keys (by_path rs) ≡ record_paths rs = ap keys e ∙ keys-entries rs in
    let once : insert_keys (record_paths rs) [] ≡ record_paths rs =
      sym (keys-by_path_onto [] rs) ∙ ks in
    rw (ks, once)
      (insert_keys-AllIn (record_paths rs) (record_paths rs) (AllIn-self (record_paths rs) a))

-- Records in path order reconcile with themselves to themselves, without conflict or merge.
pub reconcile_self : (rs : List Record) → Ascending (record_paths rs) → reconcile rs rs ≡ quiet rs
unfolding reconcile
reconcile_self rs a =
    rw (by_path-entries rs a, paths_self rs a) (plan_of_self (entries rs) rs (get-entries rs a))

pub records-Ascending :
    (local remote : List Record) → Ascending (record_paths (reconcile local remote).records)
records-Ascending local remote =
    rw (reconcile-record_paths local remote) (paths-Ascending local remote)

-- When both sides have installed the records of a plan, the next round plans the same records, and
-- it has no conflict and no merge.
pub reconcile_settles :
    (local remote : List Record)
    → let rs = (reconcile local remote).records in
      reconcile rs rs ≡ record { records = rs; conflicts = []; merges = [] }
reconcile_settles local remote = reconcile_self _ (records-Ascending local remote)
