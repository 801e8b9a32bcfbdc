-- ===== src/Sync/Heads/Agreement.antt =====
-- src/sync.rs: `intersect_heads` does not depend on which of the two record sets is the local one,
-- and `validate_ack_heads` takes what it computes.
use file_local.Prelude.{
  subst, ◌≡◌, refl, sym, ◌∙◌, ap, Bool, true, false, not, Option, none, some, List, [], ◌∷◌, ◌&&◌,
  any, keep, All, All-map, if◌then◌else◌, arith, Bool-cases, Option-cases, inl, inr, holds,
}
use file_local.Prelude.Results.{ok}
use file_local.Prelude.Order.{cmp_bytes-IsOrder as O}
use file_local.Prelude.Sort.{sort_by}
use file_local.Model.{Bytes, Record, is_file}
use file_local.Sync.Materialize.{find_record}
use file_local.Sync.Materialize.Edits.{is_path_eq}
use file_local.Sync.Heads.{
  are_unique, current-discrete, intersect_heads, is_current, regular_file_heads, repeats_path,
  validate_ack_heads, validate_unique_paths,
}
use file_local.Sync.Heads.Lookup.{
  AreUnique, are_unique-AreUnique, find_record-path, find_record-sort_by, get-by_path,
}
use file_local.Sync.Heads.InOrder.{
  InOrder, InOrder-AreUnique, InOrder-ext, find_record-keep, find_record_self, keep-AreUnique,
  keep-InOrder, sort_by-InOrder, sort_by-InOrder_self,
}

-- The record that two lists share at a path, if it is a file.
abbrev shared : Option Record → Option Record → Option Record
shared none b = none
shared (some r) b =
    if is_file r.version.entry && holds (current-discrete b (some r)) then some r else none

shared_comm : (a b : Option Record) → shared a b ≡ shared b a
unfolding current-discrete
shared_comm a b = ground arith

regular_file_heads-InOrder : (rs : List Record) → AreUnique rs → InOrder (regular_file_heads rs)
unfolding regular_file_heads
regular_file_heads-InOrder rs u =
    sort_by-InOrder (keep (λ r. is_file r.version.entry) rs)
      (keep-AreUnique (λ r. is_file r.version.entry) rs u)

find_record-regular :
    (p : Bytes) (rs : List Record)
    → AreUnique rs
    → find_record p (regular_file_heads rs) ≡ (elim (find_record p rs) [
      | none ↦ none
      | some r ↦ if is_file r.version.entry then some r else none
    ])
unfolding regular_file_heads
find_record-regular p rs u =
    find_record-sort_by p (keep (λ r. is_file r.version.entry) rs)
    ∙ find_record-keep (λ r. is_file r.version.entry) p rs u

is_current_at :
    (p : Bytes) (rs : List Record) (r : Record)
    → AreUnique rs
    → r.path ≡ p
    → is_current rs r ≡ holds (current-discrete (find_record p rs) (some r))
unfolding is_current
is_current_at p rs r u e =
    ap (λ o. holds (current-discrete o (some r)))
      (get-by_path r.path rs u ∙ ap (λ q. find_record q rs) e)

find_record-heads :
    (p : Bytes) (local remote : List Record)
    → AreUnique local
    → AreUnique remote
    → find_record p (keep (is_current remote) (regular_file_heads local))
      ≡ shared (find_record p local) (find_record p remote)
find_record-heads p local remote u v =
    find_record-keep (is_current remote) p (regular_file_heads local)
      (InOrder-AreUnique (regular_file_heads local) (regular_file_heads-InOrder local u))
    ∙ elim (Option-cases (find_record p local)) [
      | inl e ↦ rw (find_record-regular p local u, e) refl
      | inr (r, e) ↦
          rw (find_record-regular p local u, e)
            (ground (arith, is_current_at p remote r v (find_record-path p local r e)))
    ]

-- The theorem's two sides share what `intersect_heads` makes of lists without repetitions.
heads_comm :
    (local remote : List Record)
    → AreUnique local
    → AreUnique remote
    → keep (is_current remote) (regular_file_heads local)
      ≡ keep (is_current local) (regular_file_heads remote)
heads_comm local remote u v =
    InOrder-ext (keep (is_current remote) (regular_file_heads local))
      (keep (is_current local) (regular_file_heads remote))
      (keep-InOrder (is_current remote) (regular_file_heads local)
        (regular_file_heads-InOrder local u))
      (keep-InOrder (is_current local) (regular_file_heads remote)
        (regular_file_heads-InOrder remote v))
      (λ p.
        find_record-heads p local remote u v
        ∙ shared_comm (find_record p local) (find_record p remote)
        ∙ sym (find_record-heads p remote local v u))

-- Of two record sets the same heads are computed, and the same sets are refused, whichever of the two
-- is the local one.
pub intersect_heads_comm :
    (local remote : List Record) → intersect_heads local remote ≡ intersect_heads remote local
unfolding intersect_heads validate_unique_paths
intersect_heads_comm local remote = elim (Bool-cases (are_unique [] local)) [
  | inl u ↦ elim (Bool-cases (are_unique [] remote)) [
    | inl v ↦
        rw (u, v)
          (ap ok (
            heads_comm local remote (are_unique-AreUnique [] local u)
              (are_unique-AreUnique [] remote v)))
    | inr v ↦ rw (u, v) refl
  ]
  | inr u ↦ ground arith
]

-- What the acknowledgement asks of a list of heads.
repeats_path-InOrder : (rs : List Record) → InOrder rs → repeats_path rs ≡ false
unfolding repeats_path
repeats_path-InOrder [] a = refl
repeats_path-InOrder (r ∷ []) a = refl
repeats_path-InOrder (r ∷ s ∷ rs) a =
    ground (arith, repeats_path-InOrder (s ∷ rs) a.1, is_path_eq r.path s.path, O.cmp_self r.path)

any-not :
    (f : Record → Bool) (rs : List Record)
    → All (λ r. f r ≡ true) rs
    → any (λ r. not (f r)) rs ≡ false
any-not f [] h = refl
any-not f (r ∷ rs) h = rw (h.0) (any-not f rs h.1)

keep-All : (f : Record → Bool) (rs : List Record) → All (λ r. f r ≡ true) rs → keep f rs ≡ rs
unfolding keep
keep-All f [] h = refl
keep-All f (r ∷ rs) h = ground (arith, keep-All f rs h.1, h.0)

All-keep : (f : Record → Bool) (rs : List Record) → All (λ r. f r ≡ true) (keep f rs)
unfolding keep
All-keep f [] = tt
All-keep f (r ∷ rs) = ground (arith, All-keep f rs)

shared-is_file :
    (a b : Option Record) (r : Record) → shared a b ≡ some r → is_file r.version.entry ≡ true
shared-is_file none b r h = cc
shared-is_file (some a) b r h = ground arith

module _ (local remote : List Record) (u : AreUnique local) (v : AreUnique remote) where
  abbrev heads : List Record
  heads = keep (is_current remote) (regular_file_heads local)

  heads-InOrder : InOrder heads
  heads-InOrder =
      keep-InOrder (is_current remote) (regular_file_heads local)
        (regular_file_heads-InOrder local u)

  regular_file_heads-heads : regular_file_heads heads ≡ heads
  unfolding regular_file_heads
  regular_file_heads-heads =
      ap (sort_by (λ r. r.path)) (
        keep-All (λ r. is_file r.version.entry) heads
          (All-map (λ r. find_record r.path heads ≡ some r) (λ r. is_file r.version.entry ≡ true)
            heads
            (λ r h.
              shared-is_file (find_record r.path local) (find_record r.path remote) r
                (sym (find_record-heads r.path local remote u v) ∙ h))
            (find_record_self heads (InOrder-AreUnique heads heads-InOrder))))
      ∙ sort_by-InOrder_self heads heads-InOrder

  validate-heads : validate_ack_heads remote heads ≡ ok tt
  unfolding validate_ack_heads
  validate-heads = ground (
    arith,
    regular_file_heads-heads,
    repeats_path-InOrder heads heads-InOrder,
    any-not (is_current remote) heads (All-keep (is_current remote) (regular_file_heads local)),
  )

validate-intersect_right :
    (local remote heads : List Record)
    → intersect_heads local remote ≡ ok heads
    → validate_ack_heads remote heads ≡ ok tt
unfolding intersect_heads validate_unique_paths
validate-intersect_right local remote hs h = elim (Bool-cases (are_unique [] local)) [
  | inl u ↦ elim (Bool-cases (are_unique [] remote)) [
    | inl v ↦
        let e : keep (is_current remote) (regular_file_heads local) ≡ hs = ground arith in
        subst (λ k. validate_ack_heads remote k ≡ ok tt) e
          (validate-heads local remote (are_unique-AreUnique [] local u)
            (are_unique-AreUnique [] remote v))
    | inr v ↦ ground arith
  ]
  | inr u ↦ ground arith
]

-- The heads that are computed of two record sets pass the check on both: they are in order, without
-- repetitions, files, and current at both.
pub validate_ack_heads-intersect_heads :
    (local remote heads : List Record)
    → intersect_heads local remote ≡ ok heads
    → (validate_ack_heads local heads ≡ ok tt) × (validate_ack_heads remote heads ≡ ok tt)
validate_ack_heads-intersect_heads local remote heads h = (
  validate-intersect_right remote local heads (intersect_heads_comm remote local ∙ h),
  validate-intersect_right local remote heads h,
)

intersect_heads-InOrder :
    (local remote hs : List Record)
    → intersect_heads local remote ≡ ok hs
    → InOrder hs × All (λ r. is_current remote r ≡ true) hs
unfolding intersect_heads validate_unique_paths
intersect_heads-InOrder local remote hs h = elim (Bool-cases (are_unique [] local)) [
  | inl u ↦ elim (Bool-cases (are_unique [] remote)) [
    | inl v ↦
        let e : keep (is_current remote) (regular_file_heads local) ≡ hs = ground arith in
        subst (λ k. InOrder k × All (λ r. is_current remote r ≡ true) k) e
          (
            heads-InOrder local remote (are_unique-AreUnique [] local u)
                (are_unique-AreUnique [] remote v),
            All-keep (is_current remote) (regular_file_heads local),
          )
    | inr v ↦ ground arith
  ]
  | inr u ↦ ground arith
]

-- The heads are without repetitions, and current on both sides.
pub intersect_heads-AreUnique :
    (local remote hs : List Record)
    → intersect_heads local remote ≡ ok hs
    → AreUnique hs
      × (All (λ r. is_current local r ≡ true) hs × All (λ r. is_current remote r ≡ true) hs)
intersect_heads-AreUnique local remote hs h =
    let (ordered, remotely) = intersect_heads-InOrder local remote hs h in
    let (o, locally) =
      intersect_heads-InOrder remote local hs (intersect_heads_comm remote local ∙ h) in
    (InOrder-AreUnique hs ordered, (locally, remotely))
