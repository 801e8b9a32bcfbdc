-- ===== src/State/Queue.antt =====
-- src/state.rs: which queued requests may compete for the installation slot.
pub mod Order
pub mod Progress
pub mod Fairness
use file_local.Prelude.{
  ℕ, ◌≡◌, refl, sym, ◌∙◌, ap, Bool, true, false, Option, none, some, List, [], ◌∷◌, Ordering, arith,
  ◌⊎◌, inl, inr, ◌&&◌, ◌||◌, if◌then◌else◌, Any, keep, Bool-cases, Option-cases, holds, not, ◌≢◌,
}
use file_local.Prelude.Order.{
  IsOrder, cmp_bytes, cmp_bytes-IsOrder, cmp_int, cmp_int-IsOrder, is_lt, reversed, then_with, ℤ,
}
use file_local.Prelude.Sorted.{get, get-insert, insert}
use file_local.Model.{Bytes, Bytes-discrete}

pub data SyncOperation : Type 0 where
  recovery initial sync watch registration removal maintenance : SyncOperation

pub data PairedQueueState : Type 0 where
  pending_authority parked prepared eligible : PairedQueueState

pub record ScheduledRequestSnapshot : Type 0 where
  pub ticket : ℤ
  pub token : Bytes
  pub share : Option Bytes
  pub relationship : Option Bytes
  pub operation : SyncOperation
  pub generation : Option ℤ
  pub network_authority : Option Bytes
  pub network_order : Option ℤ
  pub paired_state : Option PairedQueueState
  pub proxy_acknowledged : Bool
  pub active : Bool

-- `Ord` of `Option<i64>`.
unfoldable pub cmp_order : Option ℤ → Option ℤ → Ordering
cmp_order none none = Ordering.eq
cmp_order none (some b) = Ordering.lt
cmp_order (some a) none = Ordering.gt
cmp_order (some a) (some b) = cmp_int a b

-- `(network_order, ticket)`, compared as a pair.
unfoldable pub cmp_place : ScheduledRequestSnapshot → ScheduledRequestSnapshot → Ordering
cmp_place r h = then_with (cmp_order r.network_order h.network_order) (cmp_int r.ticket h.ticket)

abbrev pub is_before : ScheduledRequestSnapshot → ScheduledRequestSnapshot → Bool
is_before r h = is_lt (cmp_place r h)

abbrev pub is_eligible : Option PairedQueueState → Bool
is_eligible (some eligible) = true
is_eligible (some pending_authority) = false
is_eligible (some parked) = false
is_eligible (some prepared) = false
is_eligible none = false

abbrev Heads : Type 0
Heads = List (Bytes × ScheduledRequestSnapshot)

-- `entry(authority).and_modify(..).or_insert(request)`.
unfoldable pub enter : Bytes → ScheduledRequestSnapshot → Heads → Heads
enter authority r m = elim (get authority m) [
  | none ↦ insert authority r m
  | some head ↦ if is_before r head then insert authority r m else m
]

-- One request, with the filter in front of the loop.
unfoldable pub enter_paired : ScheduledRequestSnapshot → Heads → Heads
enter_paired r m = elim r.network_authority [
  | none ↦ m
  | some authority ↦ if is_eligible r.paired_state then enter authority r m else m
]

unfoldable pub authority_heads : Heads → List ScheduledRequestSnapshot → Heads
authority_heads m [] = m
authority_heads m (r ∷ rs) = authority_heads (enter_paired r m) rs

unfoldable pub same_ticket : ℤ → ℤ → Bool
same_ticket a b = elim (cmp_int a b) [
  | Ordering.eq ↦ true
  | Ordering.lt ↦ false
  | Ordering.gt ↦ false
]

abbrev is_head : Heads → ScheduledRequestSnapshot → Option Bytes → Bool
is_head heads r none = false
is_head heads r (some authority) = elim (get authority heads) [
  | none ↦ false
  | some head ↦ same_ticket head.ticket r.ticket
]

unfoldable pub is_candidate : Heads → ScheduledRequestSnapshot → Bool
is_candidate heads r = elim r.paired_state [
  | none ↦ true
  | some state ↦ if is_eligible (some state) then is_head heads r r.network_authority else false
]

unfoldable pub eligible_candidates : List ScheduledRequestSnapshot → List ScheduledRequestSnapshot
eligible_candidates queued = keep (is_candidate (authority_heads [] queued)) queued

abbrev same_authority : Option Bytes → Option Bytes → Bool
same_authority (some a) (some b) = holds (Bytes-discrete b a)
same_authority (some a) none = false
same_authority none b = false

abbrev precedes : ScheduledRequestSnapshot → ScheduledRequestSnapshot → Bool
precedes target candidate =
    (same_authority target.network_authority candidate.network_authority
      && is_lt (cmp_order candidate.network_order target.network_order))
    || is_lt (cmp_int candidate.ticket target.ticket)

unfoldable pub eligible_predecessors :
    List ScheduledRequestSnapshot → ScheduledRequestSnapshot → List ScheduledRequestSnapshot
eligible_predecessors queued target = keep (precedes target) (eligible_candidates queued)
