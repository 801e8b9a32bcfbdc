-- ===== src/State/Queue/Progress.antt =====
-- src/state.rs: the heads of the authorities and their place among the candidates.
use file_local.Prelude.{
  ◌≡◌, refl, ap, Bool, true, false, some, List, [], ◌∷◌, arith, ◌⊎◌, inl, inr, Any, keep,
  Bool-cases, Option-cases,
}
use file_local.Prelude.Order.{cmp_bytes-IsOrder, cmp_int-IsOrder}
use file_local.Prelude.Sorted.{get, get-insert, insert}
use file_local.Model.{Bytes}
use file_local.State.Queue.{
  Heads, ScheduledRequestSnapshot, authority_heads, eligible, eligible_candidates, enter,
  enter_paired, is_before, is_candidate, same_ticket,
}
use file_local.State.Queue.Order.{is_before_asym, is_before_self, is_before_trans}

-- An eligible request of the authority.
abbrev pub Competes : Bytes → ScheduledRequestSnapshot → Type 0
Competes a r = (r.network_authority ≡ some a) × (r.paired_state ≡ some eligible)

get_inserted :
    (a : Bytes) (r : ScheduledRequestSnapshot) (m : Heads) → get a (insert a r m) ≡ some r
get_inserted a r m = ground (arith, get-insert a a r m, cmp_bytes-IsOrder.cmp_self a)

-- What `enter` does with a request: it becomes the head, or there is a head that it does not
-- come before.
IsEntered : Bytes → ScheduledRequestSnapshot → Heads → Heads → Type 0
IsEntered a r m m' =
    ((m' ≡ insert a r m)
      × ((h : ScheduledRequestSnapshot) → get a m ≡ some h → is_before r h ≡ true))
    ⊎ ((m' ≡ m) × ((h : ScheduledRequestSnapshot) × (get a m ≡ some h) × (is_before r h ≡ false)))

enter-IsEntered :
    (a : Bytes) (r : ScheduledRequestSnapshot) (m : Heads) → IsEntered a r m (enter a r m)
unfolding enter IsEntered
enter-IsEntered a r m = elim (Option-cases (get a m)) [
  | inl e ↦ inl (rw (e, enter) refl, λ h f. cc)
  | inr (h, e) ↦ elim (Bool-cases (is_before r h)) [
    | inl b ↦ inl (rw (e, b, enter) refl, λ h' f. ground arith)
    | inr b ↦ inr (rw (e, b, enter) refl, (h, e, b))
  ]
]

enter_paired-cases :
    (r : ScheduledRequestSnapshot) (m : Heads)
    → (enter_paired r m ≡ m) ⊎ ((a : Bytes) × Competes a r × (enter_paired r m ≡ enter a r m))
unfolding enter_paired
enter_paired-cases r m = ground arith

enter_paired-Competes :
    (a : Bytes) (r : ScheduledRequestSnapshot) (m : Heads)
    → Competes a r
    → enter_paired r m ≡ enter a r m
unfolding enter_paired
enter_paired-Competes a r m (c, d) = ground arith

get-insert_cases :
    (a b : Bytes) (r h : ScheduledRequestSnapshot) (m : Heads)
    → get a (insert b r m) ≡ some h
    → ((a ≡ b) × (r ≡ h)) ⊎ (get a m ≡ some h)
get-insert_cases a b r h m e = ground (arith, get-insert a b r m, cmp_bytes-IsOrder.eq_of_cmp a b)

-- A head stays, or gives way to one that it does not come before.
unfoldable pub Keeps : Bytes → ScheduledRequestSnapshot → Heads → Type 0
Keeps a h m = (k : ScheduledRequestSnapshot) × (get a m ≡ some k) × (is_before h k ≡ false)

insert-Keeps :
    (a b : Bytes) (r h : ScheduledRequestSnapshot) (m : Heads)
    → ((k : ScheduledRequestSnapshot) → get b m ≡ some k → is_before r k ≡ true)
    → get a m ≡ some h
    → Keeps a h (insert b r m)
unfolding Keeps
insert-Keeps a b r h m earlier e = elim (Option-cases (get a (insert b r m))) [
  | inl none_left ↦ ground (arith, get-insert a b r m)
  | inr (k, there) ↦ elim (get-insert_cases a b r k m there) [
    | inl (same, new) ↦ (k, there, is_before_asym k h (rw (new) at (earlier h (rw same at e))))
    | inr old ↦ (k, there, ground (arith, is_before_self h))
  ]
]

step-Keeps :
    (a : Bytes) (r h : ScheduledRequestSnapshot) (m : Heads)
    → get a m ≡ some h
    → Keeps a h (enter_paired r m)
unfolding Keeps IsEntered
step-Keeps a r h m e = elim (enter_paired-cases r m) [
  | inl same ↦ (h, rw same e, is_before_self h)
  | inr (b, c, eq) ↦ elim (enter-IsEntered b r m) [
    | inl (new, earlier) ↦ rw (eq, new) (insert-Keeps a b r h m earlier e)
    | inr (same, _) ↦ (h, rw (eq, same) e, is_before_self h)
  ]
]

heads-Keeps :
    (a : Bytes) (h : ScheduledRequestSnapshot) (m : Heads) (rs : List ScheduledRequestSnapshot)
    → get a m ≡ some h
    → Keeps a h (authority_heads m rs)
unfolding authority_heads Keeps
heads-Keeps a h m [] e = (h, e, is_before_self h)
heads-Keeps a h m (r ∷ rs) e =
    let (k, there, le) = step-Keeps a r h m e in
    let (f, at_end, le') = heads-Keeps a k (enter_paired r m) rs there in
    (f, at_end, is_before_trans f k h le' le)

step-head :
    (a : Bytes) (r : ScheduledRequestSnapshot) (m : Heads)
    → Competes a r
    → Keeps a r (enter_paired r m)
unfolding Keeps IsEntered
step-head a r m c = rw (enter_paired-Competes a r m c) (elim (enter-IsEntered a r m) [
  | inl (new, _) ↦ (r, rw new (get_inserted a r m), is_before_self r)
  | inr (same, (h, e, b)) ↦ (h, rw same e, b)
])

-- The head of an authority comes before none of its eligible requests.
pub heads-head :
    (a : Bytes) (r : ScheduledRequestSnapshot) (m : Heads) (rs : List ScheduledRequestSnapshot)
    → Competes a r
    → Any (λ q. q ≡ r) rs
    → Keeps a r (authority_heads m rs)
unfolding authority_heads Keeps
heads-head a r m [] c h = absurd h
heads-head a r m (q ∷ rs) c (inl e) =
    let (k, there, le) = step-head a q m (rw e c) in
    let (f, at_end, le') = heads-Keeps a k (enter_paired q m) rs there in
    (f, at_end, is_before_trans f k r le' (rw e at le))
heads-head a r m (q ∷ rs) c (inr i) = heads-head a r (enter_paired q m) rs c i

step-from :
    (a : Bytes) (r h : ScheduledRequestSnapshot) (m : Heads)
    → get a (enter_paired r m) ≡ some h
    → ((r ≡ h) × Competes a r) ⊎ (get a m ≡ some h)
unfolding IsEntered
step-from a r h m e = elim (enter_paired-cases r m) [
  | inl same ↦ inr (rw same at e)
  | inr (b, c, eq) ↦ elim (enter-IsEntered b r m) [
    | inl (new, _) ↦ elim (get-insert_cases a b r h m (rw (eq, new) at e)) [
      | inl (at_b, is_r) ↦ inl (is_r, rw at_b c)
      | inr old ↦ inr old
    ]
    | inr (same, _) ↦ inr (rw (eq, same) at e)
  ]
]

-- A head is one of the queue's eligible requests of its authority.
pub heads-from :
    (a : Bytes) (h : ScheduledRequestSnapshot) (m : Heads) (rs : List ScheduledRequestSnapshot)
    → get a (authority_heads m rs) ≡ some h
    → (get a m ≡ some h) ⊎ Any (λ r. (r ≡ h) × Competes a r) rs
unfolding authority_heads
heads-from a h m [] e = inl e
heads-from a h m (r ∷ rs) e = elim (heads-from a h (enter_paired r m) rs e) [
  | inr later ↦ inr (inr later)
  | inl now ↦ elim (step-from a r h m now) [ inl here ↦ inr (inl here) | inr before ↦ inl before ]
]

Any-keep :
    (P : ScheduledRequestSnapshot → Type 0) (f : ScheduledRequestSnapshot → Bool)
    (Q : ScheduledRequestSnapshot → Type 0) (rs : List ScheduledRequestSnapshot)
    → ((r : ScheduledRequestSnapshot) → P r → (f r ≡ true) × Q r)
    → Any P rs
    → Any Q (keep f rs)
unfolding keep
Any-keep P f Q [] k h = absurd h
Any-keep P f Q (r ∷ rs) k (inl h) = rw ((k r h).0, keep) (inl (k r h).1)
Any-keep P f Q (r ∷ rs) k (inr h) = elim (Bool-cases (f r)) [
  | inl e ↦ rw (e, keep) (inr (Any-keep P f Q rs k h))
  | inr e ↦ rw (e, keep) (Any-keep P f Q rs k h)
]

head-is_candidate :
    (heads : Heads) (a : Bytes) (h r : ScheduledRequestSnapshot)
    → get a heads ≡ some h
    → r ≡ h
    → Competes a r
    → is_candidate heads r ≡ true
unfolding is_candidate same_ticket
head-is_candidate heads a h r e same (c, d) =
    ground (
      arith,
      cmp_int-IsOrder.cmp_self h.ticket,
      ap (λ (q : ScheduledRequestSnapshot). q.ticket) same,
    )

-- If the queue has an eligible request of an authority, an eligible request of that authority may
-- compete for the installation slot, and the former does not come before it in the authority's
-- order.
pub eligible_candidates-Competes :
    (queued : List ScheduledRequestSnapshot) (a : Bytes) (r : ScheduledRequestSnapshot)
    → Competes a r
    → Any (λ q. q ≡ r) queued
    → Any (λ c. Competes a c × (is_before r c ≡ false)) (eligible_candidates queued)
unfolding eligible_candidates Keeps get
eligible_candidates-Competes queued a r c i =
    let heads = authority_heads [] queued in
    let (h, at_end, le) = heads-head a r [] queued c i in
    elim (heads-from a h [] queued at_end) [
      | inl none_yet ↦ cc
      | inr member ↦
          Any-keep (λ q. (q ≡ h) × Competes a q) (is_candidate heads) _ queued
            (λ q (same, comp). (head-is_candidate heads a h q at_end same comp, (comp, rw same le)))
            member
    ]
