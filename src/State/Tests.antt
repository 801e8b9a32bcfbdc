-- ===== src/State/Tests.antt =====
-- Runs of the queue, and its theorems at concrete data.
use file_local.Prelude.{◌≡◌, refl, ℕ, false, Option, none, some, List, [], ◌∷◌, inl, Any}
use file_local.Prelude.Order.{cmp_bytes, cmp_int, pos}
use file_local.Prelude.Sorted.{get, insert}
use file_local.Prelude.{keep}
use file_local.Model.{Bytes}
use file_local.State.Queue.{
  PairedQueueState, ScheduledRequestSnapshot, authority_heads, cmp_order, cmp_place, eligible,
  eligible_candidates, enter, enter_paired, is_before, is_candidate, parked, same_ticket, sync,
}
use file_local.State.Queue.Progress.{Competes, eligible_candidates-Competes}
use file_local.State.Queue.Fairness.{eligible_candidates-first}

abbrev hub : Bytes
hub = b'h' ∷ []

abbrev request : ℕ → Option Bytes → ℕ → Option PairedQueueState → ScheduledRequestSnapshot
request ticket authority order state = record {
  ticket = pos ticket;
  token = [];
  share = none;
  relationship = none;
  operation = sync;
  generation = none;
  network_authority = authority;
  network_order = some (pos order);
  paired_state = state;
  proxy_acknowledged = false;
  active = false;
}

abbrev later_order : ScheduledRequestSnapshot
later_order = request 1 (some hub) 9 (some eligible)

abbrev earlier_order : ScheduledRequestSnapshot
earlier_order = request 2 (some hub) 4 (some eligible)

abbrev local_request : ScheduledRequestSnapshot
local_request = request 3 none 0 none

abbrev parked_request : ScheduledRequestSnapshot
parked_request = request 4 (some hub) 1 (some parked)

abbrev queue : List ScheduledRequestSnapshot
queue = later_order ∷ earlier_order ∷ local_request ∷ parked_request ∷ []

head_and_local : eligible_candidates queue ≡ earlier_order ∷ local_request ∷ []
unfolding eligible_candidates authority_heads enter_paired enter cmp_place cmp_order cmp_int
    cmp_bytes get insert keep is_candidate same_ticket
head_and_local = refl

eligible_candidates-Competes_example :
    Any (λ c. Competes hub c × (is_before later_order c ≡ false)) (eligible_candidates queue)
eligible_candidates-Competes_example =
    eligible_candidates-Competes queue hub later_order (refl, refl) (inl refl)

eligible_candidates-first_example : is_before later_order earlier_order ≡ false
unfolding eligible_candidates authority_heads enter_paired enter cmp_place cmp_order cmp_int
    cmp_bytes get insert keep is_candidate same_ticket
eligible_candidates-first_example =
    eligible_candidates-first queue hub earlier_order later_order
      ((λ e. cc, (λ e. cc, (λ e. cc, tt))), ((λ e. cc, (λ e. cc, tt)), ((λ e. cc, tt), (tt, tt))))
      (inl refl) (refl, refl) (inl refl) (refl, refl)
