-- ===== src/Sync/Scheduling.antt =====
-- src/sync.rs: `NetworkOrder` and `CoarseQueuePosition`, the numbers of a scheduling message.
use file_local.Prelude.{
  ℕ, ◌-◌, ◌*◌, ◌^◌, ◌≤◌, ◌<◌, ◌≡◌, Bool, Option, none, some, List, [], ◌∷◌, arith, ◌==◌, ltb, leb,
  ◌||◌, not, if◌then◌else◌, any, ◌↔◌, ◌⊎◌,
}
use file_local.Prelude.Results.{Result, ok, err, ok_or}

pub data SchedulingError : Type 0 where
  bad_order bad_position : SchedulingError

abbrev pub i64_max : ℕ
i64_max = 2 ^ 63 - 1

unfoldable pub new_order : ℕ → Result ℕ SchedulingError
new_order value = if value == 0 || ltb i64_max value then err bad_order else ok value

abbrev pub max_position : ℕ
max_position = 1024

-- The powers of two of a `u16`.
abbrev pub powers : List ℕ
powers =
    1 ∷ 2 ∷ 4 ∷ 8 ∷ 16 ∷ 32 ∷ 64 ∷ 128 ∷ 256 ∷ 512 ∷ 1024 ∷ 2048 ∷ 4096 ∷ 8192 ∷ 16384 ∷ 32768 ∷ []

abbrev first_from : ℕ → List ℕ → Option ℕ
first_from n [] = none
first_from n (p ∷ ps) = if leb n p then some p else first_from n ps

-- `u16::next_power_of_two`, which overflows above the last one.
unfoldable pub next_power_of_two : ℕ → Option ℕ
next_power_of_two n = first_from n powers

unfoldable pub is_power_of_two : ℕ → Bool
is_power_of_two n = any (λ p. p == n) powers

unfoldable pub from_exact : ℕ → Result ℕ SchedulingError
from_exact position =
    if position == 0 || ltb max_position position
    then err bad_position
    else ok_or (next_power_of_two position) bad_position

unfoldable pub from_wire : ℕ → Result ℕ SchedulingError
from_wire position =
    if position == 0 || ltb max_position position || not (is_power_of_two position)
    then err bad_position
    else ok position

-- The position that a peer sends for a place in the queue is accepted by the other peer as it is,
-- and lies from the place up to less than twice the place.
from_exact-from_wire :
    (position coarse : ℕ)
    → from_exact position ≡ ok coarse
    → (from_wire coarse ≡ ok coarse) × (position ≤ coarse) × (coarse < position * 2)
unfolding from_exact from_wire next_power_of_two is_power_of_two
from_exact-from_wire position coarse h = (ground arith, ground arith, ground arith)

-- A place in the queue has no position to send exactly if it is 0 or past the largest position.
from_exact-err :
    (position : ℕ)
    → (from_exact position ≡ err bad_position) ↔ ((position ≡ 0) ⊎ (max_position < position))
unfolding from_exact next_power_of_two
from_exact-err position = (λ h. ground arith, λ h. ground arith)
