-- ===== src/Watch/Heartbeat.antt =====
-- src/watch.rs: `Heartbeat`. `limit` is the largest `Instant`.
use file_local.Prelude.{
  ℕ, suc, ◌+◌, ◌≤◌, ◌≡◌, Bool, true, false, Option, none, some, List, [], ◌∷◌, ◌++◌, arith, leb,
  ltb, ◌==◌, if◌then◌else◌, ◌⊎◌, inl, inr,
}
use file_local.Watch.{WatchConfig, checked_add, u64_max}

pub data HeartbeatAction : Type 0 where
  ping : ℕ → HeartbeatAction
  timed_out : HeartbeatAction

pub record Heartbeat : Type 0 where
  pub last_activity : ℕ
  pub awaiting : Option (ℕ × ℕ)
  pub next_nonce : ℕ

abbrev pub new_heartbeat : ℕ → Heartbeat
new_heartbeat now = record { last_activity = now; awaiting = none; next_nonce = 1 }

unfoldable pub pong : Heartbeat → ℕ → ℕ → Heartbeat × Bool
pong h nonce now = elim h.awaiting [
  | none ↦ (h, false)
  | some (expected, deadline) ↦
      if expected == nonce
      then (record h { awaiting = none; last_activity = now }, true)
      else (h, false)
]

unfoldable pub activity : Heartbeat → ℕ → Heartbeat
activity h now = record h { awaiting = none; last_activity = now }

-- What a session does with its heartbeat.
pub data Event : Type 0 where
  polls : (now : ℕ) → Event
  pongs : (nonce now : ℕ) → Event
  traffic : (now : ℕ) → Event

-- The nonces of the pings that a session sends.
nonce_of : Option HeartbeatAction → List ℕ
nonce_of (some (ping n)) = n ∷ []
nonce_of _ = []

abbrev pub AscendsFrom : ℕ → List ℕ → Type 0
AscendsFrom n [] = Unit {0}
AscendsFrom n (m ∷ ms) = (n ≤ m) × AscendsFrom (suc m) ms

AscendsFrom-mono : (n m : ℕ) (ms : List ℕ) → n ≤ m → AscendsFrom m ms → AscendsFrom n ms
AscendsFrom-mono n m [] h a = tt
AscendsFrom-mono n m (k ∷ ms) h a = (omega arith, a.1)

pong-next_nonce : (h : Heartbeat) (n now : ℕ) → (pong h n now).0.next_nonce ≡ h.next_nonce
unfolding pong
pong-next_nonce h n now = ground arith

module _ (limit : ℕ) where
  unfoldable pub heartbeat_deadline : Heartbeat → WatchConfig → Option ℕ
  heartbeat_deadline h config = elim h.awaiting [
    | some (nonce, deadline) ↦ some deadline
    | none ↦ checked_add limit h.last_activity config.heartbeat
  ]

  -- The ping that an idle connection sends, with its two overflow exits.
  send_ping : Heartbeat → ℕ → WatchConfig → Heartbeat × Option HeartbeatAction
  send_ping h now config = elim (checked_add u64_max h.next_nonce 1) [
    | none ↦ (h, some timed_out)
    | some next ↦ elim (checked_add limit now config.pong_timeout) [
      | none ↦ (h, some timed_out)
      | some deadline ↦ (
        record h { next_nonce = next; awaiting = some (h.next_nonce, deadline) },
        some (ping h.next_nonce),
      )
    ]
  ]

  -- With nothing awaited: `?` on the deadline, then the test of the time.
  idle_due : Heartbeat → ℕ → WatchConfig → Option ℕ → Heartbeat × Option HeartbeatAction
  unfolding send_ping
  idle_due h now config none = (h, none)
  idle_due h now config (some deadline) =
      if ltb now deadline then (h, none) else send_ping h now config

  unfoldable pub due : Heartbeat → ℕ → WatchConfig → Heartbeat × Option HeartbeatAction
  unfolding idle_due heartbeat_deadline
  due h now config = elim h.awaiting [
    | some (nonce, deadline) ↦ (h, if leb deadline now then some timed_out else none)
    | none ↦ idle_due h now config (heartbeat_deadline h config)
  ]

  unfoldable pub step : WatchConfig → Heartbeat → Event → Heartbeat
  unfolding due pong activity
  step config h (polls now) = (due h now config).0
  step config h (pongs nonce now) = (pong h nonce now).0
  step config h (traffic now) = activity h now

  -- The nonces of the pings that a session sends, in order.
  unfoldable pub sent : WatchConfig → Heartbeat → List Event → List ℕ
  unfolding step nonce_of
  sent config h [] = []
  sent config h (polls now ∷ es) =
      nonce_of (due h now config).1 ++ sent config (due h now config).0 es
  sent config h (pongs nonce now ∷ es) = sent config (pong h nonce now).0 es
  sent config h (traffic now ∷ es) = sent config (activity h now) es

  -- The outcomes of `due`: nothing is sent and the nonce stays, or a ping goes out with the next
  -- nonce, which is used up.
  due-cases :
      (h : Heartbeat) (now : ℕ) (config : WatchConfig)
      → ((nonce_of (due h now config).1 ≡ []) × ((due h now config).0.next_nonce ≡ h.next_nonce))
        ⊎ ((nonce_of (due h now config).1 ≡ h.next_nonce ∷ [])
            × ((due h now config).0.next_nonce ≡ suc h.next_nonce))
  unfolding due nonce_of
  due-cases h now config = ground arith

  -- Over any run of polls, pongs and traffic the nonces of the pings sent are new: they ascend
  -- strictly from the next nonce on.
  pub sent-AscendsFrom :
      (config : WatchConfig) (h : Heartbeat) (es : List Event)
      → AscendsFrom h.next_nonce (sent config h es)
  unfolding sent
  sent-AscendsFrom config h [] = tt
  sent-AscendsFrom config h (polls now ∷ es) =
      let h' = (due h now config).0 in
      let rest = sent-AscendsFrom config h' es in
      elim (due-cases h now config) [
        | inl (none_sent, same) ↦ rw (none_sent) (rw same at rest)
        | inr (one_sent, next) ↦ rw (one_sent) (omega arith, rw next at rest)
      ]
  sent-AscendsFrom config h (pongs nonce now ∷ es) =
      rw (pong-next_nonce h nonce now) at (sent-AscendsFrom config (pong h nonce now).0 es)
  sent-AscendsFrom config h (traffic now ∷ es) = sent-AscendsFrom config (activity h now) es

  -- A ping is sent only by a connection that awaits no pong and has been idle for the heartbeat's
  -- interval. From then on, without a pong or traffic, a poll reports the timeout exactly from
  -- `pong_timeout` after the ping, and a pong is accepted only for the ping's own nonce.
  pub due-ping :
      (h h' : Heartbeat) (now : ℕ) (config : WatchConfig) (n : ℕ)
      → due h now config ≡ (h', some (ping n))
      → (n ≡ h.next_nonce)
        × (h.last_activity + config.heartbeat ≤ now)
        × (h.awaiting ≡ none)
        × ((later : ℕ)
            → due h' later config
              ≡ (h', if leb (now + config.pong_timeout) later then some timed_out else none))
        × ((m later : ℕ) → (pong h' m later).1 ≡ (n == m))
  unfolding due pong
  due-ping h h' now config n e =
      (ground arith, ground arith, ground arith, λ later. ground arith, λ m later. ground arith)
