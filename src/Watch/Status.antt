-- ===== src/Watch/Status.antt =====
-- src/watch.rs: `WatchState`, the status behind its mutex and the wake channel beside it. Each
-- method holds the lock for its whole effect on the status, so a method is one step.
use file_local.Prelude.{
  ◌↔◌, max, ℕ, suc, ◌≤◌, ◌≡◌, refl, ap, ◌∙◌, Option-cases, Option, none, some, List, [], ◌∷◌, ◌⊎◌,
  inl, inr, arith, ltb, max, if◌then◌else◌, is_empty, false, true, Bool, ◌&&◌, ◌++◌, any,
}
use file_local.Prelude.Results.{Result, ok, err}
use file_local.Watch.{checked_add, u64_max}
use file_local.Watch.Escape.{bounded_error}

pub record WatchStatus : Type 0 where
  pub generation : ℕ
  pub lost : Option (List ℕ)

pub data WatchSnapshot : Type 0 where
  healthy : ℕ → WatchSnapshot
  lost_with : List ℕ → WatchSnapshot

pub data Completion : Type 0 where
  current pending : Completion

abbrev pub initial : WatchStatus
initial = record { generation = 0; lost = none }

unfoldable pub snapshot : WatchStatus → WatchSnapshot
snapshot s = elim s.lost [ some e ↦ lost_with e | none ↦ healthy s.generation ]

-- `watch generation exhausted`.
exhausted : List ℕ
exhausted =
    b'w' ∷ b'a' ∷ b't' ∷ b'c' ∷ b'h' ∷ 0x20 ∷ b'g' ∷ b'e' ∷ b'n' ∷ b'e' ∷ b'r' ∷ b'a' ∷ b't' ∷ b'i'
    ∷ b'o' ∷ b'n' ∷ 0x20 ∷ b'e' ∷ b'x' ∷ b'h' ∷ b'a' ∷ b'u' ∷ b's' ∷ b't' ∷ b'e' ∷ b'd' ∷ []

-- The effect of `changed` on the status.
unfoldable pub change : WatchStatus → WatchStatus
unfolding exhausted
change s = elim s.lost [
  | none ↦ elim (checked_add u64_max s.generation 1) [
    | some g ↦ record s { generation = g }
    | none ↦ record s { lost = some (bounded_error exhausted) }
  ]
  | some e ↦ s
]

-- The effect of `lost` on the status.
unfoldable pub lose : List ℕ → WatchStatus → WatchStatus
lose error s = elim s.lost [ none ↦ record s { lost = some (bounded_error error) } | some e ↦ s ]

-- The channel of `wake_channel`, which holds one event, and whether its receiver still exists.
pub record Channel {ℓ} (T : Type ℓ) : Type ℓ where
  pub is_connected : Bool
  pub waiting : List T

-- The three outcomes of `try_send`: `Disconnected` and `Full` store nothing.
unfoldable pub best_effort_wake {ℓ} : {T : Type ℓ} → T → Channel T → Channel T
best_effort_wake event c =
    if c.is_connected && is_empty c.waiting then record c { waiting = event ∷ [] } else c

-- `complete`: its result, and what it leaves in `completed_generation`.
unfoldable pub complete : WatchStatus → ℕ → ℕ → Result Completion (List ℕ) × ℕ
complete s frozen completed = elim s.lost [
  | some e ↦ (err e, completed)
  | none ↦
      let done = max completed frozen in
      (if ltb done s.generation then ok pending else ok current, done)
]

-- What the threads do to the shared state, in the order in which they take the lock or use the
-- channel: the watcher's two reports, and the receiver, which takes the waiting event or goes away.
pub data Event : Type 0 where
  changes : Event
  loses : List ℕ → Event
  receives : Event
  disconnects : Event

pub record Shared : Type 0 where
  pub status : WatchStatus
  pub channel : Channel Event

-- `changed` and `lost` update the status and then wake.
unfoldable pub step : Shared → Event → Shared
step s changes = record { status = change s.status; channel = best_effort_wake changes s.channel }
step s (loses e) = record {
  status = lose e s.status;
  channel = best_effort_wake (loses e) s.channel;
}
step s receives = record s { channel = record s.channel { waiting = [] } }
step s disconnects = record s { channel = record { is_connected = false; waiting = [] } }

unfoldable pub run : Shared → List Event → Shared
run s [] = s
run s (e ∷ es) = run (step s e) es

pub record IsWithin (s : WatchStatus) : Type 0 where
  pub bounded : s.generation ≤ u64_max

change-generation : (s : WatchStatus) → s.generation ≤ (change s).generation
unfolding change
change-generation s = ground arith

step-generation : (s : Shared) (e : Event) → s.status.generation ≤ (step s e).status.generation
unfolding step lose
step-generation s changes = change-generation s.status
step-generation s (loses e) = ground arith
step-generation s receives = omega arith
step-generation s disconnects = omega arith

run-generation : (s : Shared) (es : List Event) → s.status.generation ≤ (run s es).status.generation
unfolding run
run-generation s [] = omega arith
run-generation s (e ∷ es) = omega (arith, step-generation s e, run-generation (step s e) es)

step-IsWithin : (s : Shared) (e : Event) → IsWithin s.status → IsWithin (step s e).status
unfolding step lose change
step-IsWithin s changes v = ground arith
step-IsWithin s (loses e) v = ground arith
step-IsWithin s receives v = v
step-IsWithin s disconnects v = v

step-lost :
    (s : Shared) (e : Event) (error : List ℕ)
    → s.status.lost ≡ some error
    → (step s e).status ≡ s.status
unfolding step lose change
step-lost s changes error h = ground arith
step-lost s (loses e) error h = ground arith
step-lost s receives error h = refl
step-lost s disconnects error h = refl

run-lost :
    (s : Shared) (es : List Event) (error : List ℕ)
    → s.status.lost ≡ some error
    → (run s es).status ≡ s.status
unfolding run
run-lost s [] error h = refl
run-lost s (e ∷ es) error h = ground (arith, run-lost (step s e) es error, step-lost s e error h)

-- The receiver has an event to take, or has taken one since, or is gone.
abbrev pub is_receive : Event → Bool
is_receive receives = true
is_receive _ = false

abbrev pub IsAwake : List Event → Shared → Type 0
IsAwake since s =
    (is_empty s.channel.waiting ≡ false)
    ⊎ (any is_receive since ≡ true)
    ⊎ (s.channel.is_connected ≡ false)

change-IsAwake : (s : Shared) → IsAwake [] (step s changes)
unfolding step best_effort_wake
change-IsAwake s = ground arith

step-IsAwake :
    (s : Shared) (e : Event) (es : List Event)
    → IsAwake [] s
    → IsAwake [] (step s e) ⊎ (any is_receive (e ∷ es) ≡ true)
unfolding step best_effort_wake
step-IsAwake s changes es h = ground arith
step-IsAwake s (loses error) es h = ground arith
step-IsAwake s receives es h = inr refl
step-IsAwake s disconnects es h = inl (inr (inr refl))

run-IsAwake : (s : Shared) (es : List Event) → IsAwake [] s → IsAwake es (run s es)
unfolding run
run-IsAwake s [] h = h
run-IsAwake s (e ∷ es) h = elim (step-IsAwake s e es h) [
  | inr taken ↦ inr (inl taken)
  | inl awake ↦ elim (run-IsAwake (step s e) es awake) [
    | inl full ↦ inl full
    | inr (inl taken) ↦ inr (inl (ground arith))
    | inr (inr gone) ↦ inr (inr gone)
  ]
]

run-append :
    (s : Shared) (before after : List Event) → run s (before ++ after) ≡ run (run s before) after
unfolding run
run-append s [] after = refl
run-append s (e ∷ before) after = run-append (step s e) before after

-- A loss is never erased: once the watcher is lost the status stays as it is, with its first error,
-- through any later events; every snapshot reports that error; and `complete` fails with it and
-- leaves the completed generation alone.
pub run-lost_sticky :
    (s : Shared) (es : List Event) (error : List ℕ) (frozen completed : ℕ)
    → s.status.lost ≡ some error
    → ((run s es).status ≡ s.status)
      × (snapshot (run s es).status ≡ lost_with error)
      × (complete (run s es).status frozen completed ≡ (err error, completed))
unfolding snapshot complete
run-lost_sticky s es error frozen completed h =
    let e = run-lost s es error h in (e, ground arith, rw e (ground arith))

-- After a change to a status that is not lost: its generation goes up, or the watcher is lost.
change-healthy :
    (s : WatchStatus)
    → s.lost ≡ none
    → (suc s.generation ≤ (change s).generation)
      ⊎ ((error : List ℕ) × ((change s).lost ≡ some error))
unfolding change
change-healthy s h = elim (Option-cases (checked_add u64_max s.generation 1)) [
  | inl full ↦ inr (bounded_error exhausted, ground arith)
  | inr (n, room) ↦ inl (ground arith)
]

-- After a change the generation is past an earlier one, or the watcher is lost.
change-past :
    (s : WatchStatus) (g : ℕ)
    → g ≤ s.generation
    → (suc g ≤ (change s).generation) ⊎ ((error : List ℕ) × ((change s).lost ≡ some error))
unfolding change
change-past s g le = elim (Option-cases s.lost) [
  | inl e ↦ elim (change-healthy s e) [ inl past ↦ inl (omega (arith, past)) | inr lost ↦ inr lost ]
  | inr (x, e) ↦ inr (x, rw e refl)
]

snapshot-generation : (s : WatchStatus) (g : ℕ) → snapshot s ≡ healthy g → s.generation ≡ g
unfolding snapshot
snapshot-generation s g h = ground arith

complete-past :
    (t : WatchStatus) (g completed : ℕ)
    → completed ≤ g
    → suc g ≤ t.generation
    → (complete t g completed ≡ (ok pending, g))
      ⊎ ((error : List ℕ) × (t.lost ≡ some error)
          × (complete t g completed ≡ (err error, completed)))
unfolding complete
complete-past t g completed le lt = elim (Option-cases t.lost) [
  | inl e ↦ inl (rw e (ground arith))
  | inr (x, e) ↦ inr (x, e, rw e refl)
]

complete-lost :
    (t : WatchStatus) (error : List ℕ) (g completed : ℕ)
    → t.lost ≡ some error
    → complete t g completed ≡ (err error, completed)
unfolding complete
complete-lost t error g completed e = rw e refl

-- A change that comes after a snapshot is not lost, whatever events come before and after it: when
-- the coordinator completes the generation that it froze, it is told that work is pending and has
-- completed no more than it froze, or it is told of the watcher's loss. And the receiver has an
-- event to take, or has taken one after the change, or no longer exists.
pub complete-run_changed :
    (s : Shared) (before after : List Event) (g completed : ℕ)
    → snapshot s.status ≡ healthy g
    → completed ≤ g
    → let t = run s (before ++ changes ∷ after) in
      ((complete t.status g completed ≡ (ok pending, g))
        ⊎ ((error : List ℕ) × (t.status.lost ≡ some error)
            × (complete t.status g completed ≡ (err error, completed))))
      × IsAwake after t
unfolding run step
complete-run_changed s before after g completed h le =
    let s₁ = run s before in
    let s₂ = step s₁ changes in
    let t = run s₂ after in
    let froze : g ≤ s₁.status.generation =
      omega (arith, snapshot-generation s.status g h, run-generation s before) in
    rw (run-append s before (changes ∷ after)) (
      elim (change-past s₁.status g froze) [
        | inl past ↦ complete-past t.status g completed le (omega (arith, run-generation s₂ after))
        | inr (error, lost) ↦
            let gone = ap (λ (u : WatchStatus). u.lost) (run-lost s₂ after error lost) ∙ lost in
            inr (error, gone, complete-lost t.status error g completed gone)
      ],
      run-IsAwake s₂ after (change-IsAwake s₁),
    )

-- `complete` answers `current` exactly if the watcher is healthy and the completed generation,
-- which it raises to the frozen one and never lowers, has reached every change.
complete-current :
    (s : WatchStatus) (frozen completed n : ℕ)
    → (complete s frozen completed ≡ (ok current, n))
      ↔ ((s.lost ≡ none) × (n ≡ max completed frozen) × (s.generation ≤ n))
unfolding complete
complete-current s frozen completed n =
    (λ h. (ground arith, ground arith, ground arith), λ (l, e, g). ground arith)

-- The generation stays within `u64`, whatever events come.
run-IsWithin : (s : Shared) (es : List Event) → IsWithin s.status → IsWithin (run s es).status
unfolding run
run-IsWithin s [] v = v
run-IsWithin s (e ∷ es) v = run-IsWithin (step s e) es (step-IsWithin s e v)
