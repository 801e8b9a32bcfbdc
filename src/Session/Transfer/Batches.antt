-- ===== src/Session/Transfer/Batches.antt =====
-- src/main.rs: the batches of a transfer that `transfer_batch_ends` makes.
use file_local.Prelude.{ℕ, ◌+◌, ◌-◌, ◌≡◌, ◌≤◌, List, [], ◌∷◌, ◌++◌, length, take, drop, All, ◌⊎◌}
use file_local.Session.Transfer.{Object, batch_limit, batch_objects}

-- The objects between the ends, from `start` on.
abbrev pub batches : ℕ → List ℕ → List Object → List (List Object)
batches start [] objects = []
batches start (e ∷ es) objects = take (e - start) objects ∷ batches e es (drop (e - start) objects)

abbrev pub total_size : List Object → ℕ
total_size [] = 0
total_size ((hash, size) ∷ objects) = size + total_size objects

abbrev pub join : List (List Object) → List Object
join [] = []
join (b ∷ bs) = b ++ join bs

-- A batch has objects, not too many of them, and no more bytes than the limit but if it is one object.
pub record IsBatch (batch : List Object) : Type 0 where
  pub is_some : 1 ≤ length batch
  pub few : length batch ≤ batch_objects
  pub small : (total_size batch ≤ batch_limit) ⊎ (length batch ≡ 1)

abbrev pub Batched : ℕ → List ℕ → List Object → Type 0
Batched start ends objects =
    (join (batches start ends objects) ≡ objects) × All IsBatch (batches start ends objects)

-- The batch in hand, if it is not empty.
abbrev InHand : List Object → Type 0
InHand current = (current ≡ []) ⊎ IsBatch current
