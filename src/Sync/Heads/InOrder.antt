-- ===== src/Sync/Heads/InOrder.antt =====
-- Lists of records in path order: sorting makes them, filtering keeps them, and those with the same
-- lookups are the same.
use file_local.Prelude.{
  ◌≡◌, ◌≢◌, refl, sym, ◌∙◌, Bool, none, some, List, [], ◌∷◌, keep, All, Ordering, if◌then◌else◌,
  arith,
}
use file_local.Prelude.Order.{cmp_bytes, cmp_bytes-IsOrder as O}
use file_local.Prelude.Sort.{insert_by, sort_by}
use file_local.Prelude.Sorted.{Ascending, Below, Below-trans}
use file_local.Model.{Bytes, Record}
use file_local.Reconcile.Coverage.{record_paths}
use file_local.Sync.Materialize.{find_record}
use file_local.Sync.Materialize.Edits.{is_path_eq, is_path_self}
use file_local.Sync.Heads.Lookup.{AreUnique, find_record-sort_by}

-- Lists in strictly ascending order of their paths.
abbrev pub InOrder : List Record → Type 0
InOrder rs = Ascending (record_paths rs)

Below-insert_by :
    (k : Bytes) (r : Record) (rs : List Record)
    → cmp_bytes k r.path ≡ Ordering.lt
    → Below k (record_paths rs)
    → Below k (record_paths (insert_by (λ r. r.path) r rs))
unfolding insert_by
Below-insert_by k r [] h b = (h, tt)
Below-insert_by k r (s ∷ rs) h b = ground (arith, Below-insert_by k r rs h b.1)

insert_by-InOrder :
    (r : Record) (rs : List Record)
    → find_record r.path rs ≡ none
    → InOrder rs
    → InOrder (insert_by (λ r. r.path) r rs)
unfolding insert_by find_record
insert_by-InOrder r [] h a = (tt, tt)
insert_by-InOrder r (s ∷ rs) h a = ground (
  arith,
  insert_by-InOrder r rs,
  Below-insert_by s.path r rs,
  Below-trans r.path s.path (record_paths rs),
  O.cmp-reversed r.path s.path,
  O.eq_of_cmp r.path s.path,
  is_path_self r.path,
)

pub sort_by-InOrder : (rs : List Record) → AreUnique rs → InOrder (sort_by (λ r. r.path) rs)
unfolding sort_by
sort_by-InOrder [] u = tt
sort_by-InOrder (r ∷ rs) u =
    insert_by-InOrder r (sort_by (λ r. r.path) rs) (find_record-sort_by r.path rs ∙ u.0)
      (sort_by-InOrder rs u.1)

pub sort_by-InOrder_self : (rs : List Record) → InOrder rs → sort_by (λ r. r.path) rs ≡ rs
unfolding sort_by insert_by
sort_by-InOrder_self [] a = refl
sort_by-InOrder_self (r ∷ []) a = refl
sort_by-InOrder_self (r ∷ s ∷ rs) a = rw (sort_by-InOrder_self (s ∷ rs) a.1, insert_by, a.0.0) refl

find_record-Below :
    (k : Bytes) (rs : List Record) → Below k (record_paths rs) → find_record k rs ≡ none
unfolding find_record
find_record-Below k [] b = refl
find_record-Below k (r ∷ rs) b =
    ground (arith, find_record-Below k rs b.1, is_path_eq k r.path, O.cmp_self k)

pub InOrder-AreUnique : (rs : List Record) → InOrder rs → AreUnique rs
InOrder-AreUnique [] a = tt
InOrder-AreUnique (r ∷ rs) a = (find_record-Below r.path rs a.0, InOrder-AreUnique rs a.1)

module _ (f : Record → Bool) where
  Below-keep :
      (k : Bytes) (rs : List Record)
      → Below k (record_paths rs)
      → Below k (record_paths (keep f rs))
  unfolding keep
  Below-keep k [] b = tt
  Below-keep k (r ∷ rs) b = ground (arith, Below-keep k rs b.1)

  pub keep-InOrder : (rs : List Record) → InOrder rs → InOrder (keep f rs)
  unfolding keep
  keep-InOrder [] a = tt
  keep-InOrder (r ∷ rs) a = ground (arith, keep-InOrder rs a.1, Below-keep r.path rs a.0)

  find_record-keep-none :
      (p : Bytes) (rs : List Record) → find_record p rs ≡ none → find_record p (keep f rs) ≡ none
  unfolding find_record keep
  find_record-keep-none p [] h = refl
  find_record-keep-none p (r ∷ rs) h = ground (arith, find_record-keep-none p rs)

  pub keep-AreUnique : (rs : List Record) → AreUnique rs → AreUnique (keep f rs)
  unfolding keep
  keep-AreUnique [] u = tt
  keep-AreUnique (r ∷ rs) u =
      ground (arith, find_record-keep-none r.path rs u.0, keep-AreUnique rs u.1)

  pub find_record-keep :
      (p : Bytes) (rs : List Record)
      → AreUnique rs
      → find_record p (keep f rs)
        ≡ (elim (find_record p rs) [ none ↦ none | some r ↦ if f r then some r else none ])
  unfolding find_record keep
  find_record-keep p [] u = refl
  find_record-keep p (r ∷ rs) u =
      ground (arith, find_record-keep p rs u.1, find_record-keep-none p rs, is_path_eq p r.path)

-- A record of a list without repetitions is what a lookup of its path finds.
All-weaken :
    (r : Record) (rs qs : List Record)
    → find_record r.path qs ≡ none
    → All (λ q. find_record q.path rs ≡ some q) qs
    → All (λ q. find_record q.path (r ∷ rs) ≡ some q) qs
unfolding find_record
All-weaken r rs [] u h = tt
All-weaken r rs (q ∷ qs) u h = (
  ground (arith, is_path_eq q.path r.path, is_path_self r.path),
  All-weaken r rs qs (ground arith) h.1,
)

pub find_record_self :
    (rs : List Record) → AreUnique rs → All (λ r. find_record r.path rs ≡ some r) rs
unfolding find_record
find_record_self [] u = tt
find_record_self (r ∷ rs) u =
    (rw (is_path_self r.path) refl, All-weaken r rs rs u.0 (find_record_self rs u.1))

-- The first record of a list in order, against another such list with the same lookup of its path.
first_not_before :
    (r q : Record) (qs : List Record)
    → InOrder (q ∷ qs)
    → find_record r.path (q ∷ qs) ≡ some r
    → cmp_bytes r.path q.path ≢ Ordering.lt
unfolding find_record
first_not_before r q qs b h lt = ground (
  arith,
  find_record-Below r.path qs (Below-trans r.path q.path (record_paths qs) lt b.0),
  is_path_eq r.path q.path,
  O.cmp_self r.path,
)

firsts_equal :
    (r q : Record) (rs qs : List Record)
    → InOrder (r ∷ rs)
    → InOrder (q ∷ qs)
    → ((p : Bytes) → find_record p (r ∷ rs) ≡ find_record p (q ∷ qs))
    → r ≡ q
unfolding find_record
firsts_equal r q rs qs a b h =
    let at_r : find_record r.path (q ∷ qs) ≡ some r =
      sym (h r.path) ∙ rw (is_path_self r.path) refl in
    let at_q : find_record q.path (r ∷ rs) ≡ some q = h q.path ∙ rw (is_path_self q.path) refl in
    let same : r.path ≡ q.path = ground (
      arith,
      first_not_before r q qs b at_r,
      first_not_before q r rs a at_q,
      O.cmp-reversed r.path q.path,
      O.eq_of_cmp r.path q.path,
    ) in
    ground (arith, is_path_self q.path)

-- Two lists in path order with the same lookups are the same.
pub InOrder-ext :
    (rs qs : List Record)
    → InOrder rs
    → InOrder qs
    → ((p : Bytes) → find_record p rs ≡ find_record p qs)
    → rs ≡ qs
unfolding find_record
InOrder-ext [] [] a b h = refl
InOrder-ext [] (q ∷ qs) a b h = ground (arith, h q.path, is_path_self q.path)
InOrder-ext (r ∷ rs) [] a b h = ground (arith, h r.path, is_path_self r.path)
InOrder-ext (r ∷ rs) (q ∷ qs) a b h =
    let e = firsts_equal r q rs qs a b h in
    let tails : (p : Bytes) → find_record p rs ≡ find_record p qs = λ p. ground (
      arith,
      h p,
      find_record-Below p rs,
      find_record-Below p qs,
      is_path_eq p r.path,
      is_path_eq p q.path,
    ) in
    cc (e, InOrder-ext rs qs a.1 b.1 tails)
