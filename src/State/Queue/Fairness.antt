-- ===== src/State/Queue/Fairness.antt =====
-- src/state.rs: the candidates and the network order of each authority.
use file_local.Prelude.{
  ◌≡◌, ◌≢◌, sym, ◌∙◌, Bool, true, false, some, List, [], ◌∷◌, arith, inl, inr, All, Any, keep,
  Bool-cases, Option-cases,
}
use file_local.Prelude.Order.{cmp_int-IsOrder}
use file_local.Prelude.Sorted.{get}
use file_local.Model.{Bytes}
use file_local.State.Queue.{
  ScheduledRequestSnapshot, authority_heads, eligible_candidates, is_before, is_candidate,
  same_ticket,
}
use file_local.State.Queue.Progress.{Competes, Keeps, heads-from, heads-head}

-- The ticket is the primary key of the queue's table.
abbrev pub AreUnique : List ScheduledRequestSnapshot → Type 0
AreUnique [] = Unit
AreUnique (r ∷ rs) = All (λ q. q.ticket ≢ r.ticket) rs × AreUnique rs

abbrev pub Contains : ScheduledRequestSnapshot → List ScheduledRequestSnapshot → Type 0
Contains r rs = Any (λ q. q ≡ r) rs

All-Contains :
    (r h : ScheduledRequestSnapshot) (rs : List ScheduledRequestSnapshot)
    → All (λ q. q.ticket ≢ r.ticket) rs
    → Contains h rs
    → h.ticket ≢ r.ticket
All-Contains r h [] a i = absurd i
All-Contains r h (q ∷ rs) a (inl e) = rw e at a.0
All-Contains r h (q ∷ rs) a (inr i) = All-Contains r h rs a.1 i

AreUnique-eq :
    (r h : ScheduledRequestSnapshot) (rs : List ScheduledRequestSnapshot)
    → AreUnique rs
    → Contains r rs
    → Contains h rs
    → h.ticket ≡ r.ticket
    → h ≡ r
AreUnique-eq r h [] u i j e = absurd i
AreUnique-eq r h (q ∷ rs) u (inl x) (inl y) e = sym y ∙ x
AreUnique-eq r h (q ∷ rs) u (inl x) (inr j) e = absurd (All-Contains r h rs (rw x at u.0) j e)
AreUnique-eq r h (q ∷ rs) u (inr i) (inl y) e = absurd (All-Contains h r rs (rw y at u.0) i (sym e))
AreUnique-eq r h (q ∷ rs) u (inr i) (inr j) e = AreUnique-eq r h rs u.1 i j e

keep-Contains :
    (f : ScheduledRequestSnapshot → Bool) (r : ScheduledRequestSnapshot)
    (rs : List ScheduledRequestSnapshot)
    → Contains r (keep f rs)
    → (f r ≡ true) × Contains r rs
unfolding keep
keep-Contains f r [] i = absurd i
keep-Contains f r (q ∷ rs) i = elim (Bool-cases (f q)) [
  | inl e ↦
      let here_or_later : Contains r (q ∷ keep f rs) = rw (e, keep) at i in
      elim here_or_later [
        | inl same ↦ (rw same at e, inl same)
        | inr later ↦ let (a, b) = keep-Contains f r rs later in (a, inr b)
      ]
  | inr e ↦
      let later : Contains r (keep f rs) = rw (e, keep) at i in
      let (a, b) = keep-Contains f r rs later in (a, inr b)
]

is_candidate-head :
    (heads : List (Bytes × ScheduledRequestSnapshot)) (a : Bytes) (r : ScheduledRequestSnapshot)
    → is_candidate heads r ≡ true
    → Competes a r
    → (h : ScheduledRequestSnapshot) × (get a heads ≡ some h) × (h.ticket ≡ r.ticket)
unfolding is_candidate same_ticket
is_candidate-head heads a r e (c, d) = elim (Option-cases (get a heads)) [
  | inl none_yet ↦ ground arith
  | inr (h, there) ↦ (h, there, cmp_int-IsOrder.eq_of_cmp h.ticket r.ticket (ground arith))
]

member-Contains :
    (a : Bytes) (h : ScheduledRequestSnapshot) (rs : List ScheduledRequestSnapshot)
    → Any (λ q. (q ≡ h) × Competes a q) rs
    → Contains h rs
member-Contains a h [] i = absurd i
member-Contains a h (q ∷ rs) (inl i) = inl i.0
member-Contains a h (q ∷ rs) (inr i) = inr (member-Contains a h rs i)

-- With distinct tickets, an eligible request of an authority that may compete for the installation
-- slot comes first in the network order of all that authority's eligible requests in the queue.
pub eligible_candidates-first :
    (queued : List ScheduledRequestSnapshot) (a : Bytes) (r other : ScheduledRequestSnapshot)
    → AreUnique queued
    → Contains r (eligible_candidates queued)
    → Competes a r
    → Contains other queued
    → Competes a other
    → is_before other r ≡ false
unfolding eligible_candidates Keeps get
eligible_candidates-first queued a r other u i c j d =
    let heads = authority_heads [] queued in
    let (chosen, inside) = keep-Contains (is_candidate heads) r queued i in
    let (h, at_end, same) = is_candidate-head heads a r chosen c in
    let (k, at_end', le) = heads-head a other [] queued d j in
    elim (heads-from a h [] queued at_end) [
      | inl none_yet ↦ cc
      | inr member ↦
          let is_r = AreUnique-eq r h queued u inside (member-Contains a h queued member) same in
          let one_head : k ≡ r = ground (arith, is_r, at_end, at_end') in rw one_head at le
    ]
