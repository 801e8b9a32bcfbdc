-- ===== src/Sync/Heads/Lookup.antt =====
-- Lists of records as finite maps from paths: what sorting and `by_path` do to a lookup.
use file_local.Prelude.{
  ◌≡◌, refl, sym, ◌∙◌, ap, true, false, Option, none, some, List, [], ◌∷◌, any, keep, arith,
  Bool-cases, Option-cases, inl, inr,
}
use file_local.Prelude.Order.{cmp_bytes-IsOrder as O}
use file_local.Prelude.Sort.{sort_by, keep-sort_by}
use file_local.Prelude.Sorted.{get, get-insert, insert}
use file_local.Model.{Bytes, Record}
use file_local.Reconcile.{by_path, by_path_onto}
use file_local.Sync.Heads.{are_unique}
use file_local.Sync.Materialize.{find_record, is_path}
use file_local.Sync.Materialize.Edits.{is_path_eq, is_path_self}

abbrev first : List Record → Option Record
first [] = none
first (r ∷ rs) = some r

find_record-first :
    (p : Bytes) (rs : List Record) → find_record p rs ≡ first (keep (λ r. is_path p r.path) rs)
unfolding find_record keep
find_record-first p [] = refl
find_record-first p (r ∷ rs) = ground (arith, find_record-first p rs)

pub find_record-sort_by :
    (p : Bytes) (rs : List Record) → find_record p (sort_by (λ r. r.path) rs) ≡ find_record p rs
find_record-sort_by p rs =
    find_record-first p (sort_by (λ r. r.path) rs)
    ∙ ap first
        (keep-sort_by (λ r. r.path) (λ r. is_path p r.path) p rs (λ r h. is_path_eq p r.path h))
    ∙ sym (find_record-first p rs)

-- No two records have the same path.
abbrev pub AreUnique : List Record → Type 0
AreUnique [] = Unit {0}
AreUnique (r ∷ rs) = (find_record r.path rs ≡ none) × AreUnique rs

pub find_record-path :
    (p : Bytes) (rs : List Record) (r : Record) → find_record p rs ≡ some r → r.path ≡ p
unfolding find_record
find_record-path p [] r h = cc
find_record-path p (s ∷ rs) r h = ground (arith, find_record-path p rs r, is_path_eq p s.path)

get-by_path_onto :
    (p : Bytes) (m : List (Bytes × Record)) (rs : List Record)
    → AreUnique rs
    → get p (by_path_onto m rs) ≡ (elim (find_record p rs) [ none ↦ get p m | some r ↦ some r ])
unfolding by_path_onto find_record
get-by_path_onto p m [] u = refl
get-by_path_onto p m (r ∷ rs) u = ground (
  arith,
  get-by_path_onto p (insert r.path r m) rs u.1,
  get-insert p r.path r m,
  O.cmp_self p,
  O.eq_of_cmp p r.path,
  is_path_eq p r.path,
  is_path_self p,
)

pub get-by_path :
    (p : Bytes) (rs : List Record) → AreUnique rs → get p (by_path rs) ≡ find_record p rs
unfolding by_path get
get-by_path p rs u =
    get-by_path_onto p [] rs u
    ∙ elim (Option-cases (find_record p rs)) [ inl e ↦ rw e refl | inr (r, e) ↦ rw e refl ]

any-find_record :
    (p : Bytes) (rs : List Record)
    → any (λ r. is_path p r.path) rs ≡ false
    → find_record p rs ≡ none
unfolding find_record
any-find_record p [] h = refl
any-find_record p (r ∷ rs) h = ground (arith, any-find_record p rs)

find_record-any :
    (p : Bytes) (rs : List Record)
    → find_record p rs ≡ none
    → any (λ r. is_path p r.path) rs ≡ false
unfolding find_record
find_record-any p [] h = refl
find_record-any p (r ∷ rs) h = ground (arith, find_record-any p rs)

-- Whatever the loop has seen is not met again.
are_unique-unseen :
    (p : Bytes) (seen : List Bytes) (rs : List Record)
    → are_unique seen rs ≡ true
    → any (is_path p) seen ≡ true
    → find_record p rs ≡ none
unfolding are_unique find_record
are_unique-unseen p seen [] h s = refl
are_unique-unseen p seen (r ∷ rs) h s = elim (Bool-cases (is_path p r.path)) [
  | inl e ↦ absurd (seen_twice (rw (is_path_eq p r.path e) s))
  | inr n ↦ rw n (are_unique-unseen p (r.path ∷ seen) rs (ground arith) (ground arith))
]
  where
    seen_twice : any (is_path r.path) seen ≡ true → ⊥
    seen_twice t = ground arith

pub are_unique-AreUnique :
    (seen : List Bytes) (rs : List Record) → are_unique seen rs ≡ true → AreUnique rs
unfolding are_unique
are_unique-AreUnique seen [] h = tt
are_unique-AreUnique seen (r ∷ rs) h =
    let later : are_unique (r.path ∷ seen) rs ≡ true = ground arith in
    (
      are_unique-unseen r.path (r.path ∷ seen) rs later (ground (arith, is_path_self r.path)),
      are_unique-AreUnique (r.path ∷ seen) rs later,
    )
