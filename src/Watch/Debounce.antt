-- ===== src/Watch/Debounce.antt =====
-- src/watch.rs: `Debounce` and `AuditSchedule`. `limit` is the largest `Instant`.
use file_local.Prelude.{
  ℕ, ◌+◌, ◌≤◌, ◌<◌, ◌≡◌, refl, Bool, true, false, Option, none, some, List, [], ◌∷◌, arith, leb,
  min, if◌then◌else◌, ◌↔◌, ◌⊎◌,
}
use file_local.Watch.{WatchConfig, checked_add}

pub record Debounce : Type 0 where
  pub first : Option ℕ
  pub latest : Option ℕ

abbrev pub idle : Debounce
idle = record { first = none; latest = none }

-- `get_or_insert`, as it leaves the option.
abbrev get_or_insert : Option ℕ → ℕ → Option ℕ
get_or_insert none v = some v
get_or_insert (some w) v = some w

unfoldable pub notify : Debounce → ℕ → Debounce
notify d now = record { first = get_or_insert d.first now; latest = some now }

-- The `?` operator on options.
infixl 5 ◌>>=◌
abbrev ◌>>=◌ : {A B : Type 0} → Option A → (A → Option B) → Option B
none >>= f = none
some a >>= f = f a

-- `deadline.is_some_and(|deadline| now >= deadline)`.
abbrev pub is_past : Option ℕ → ℕ → Bool
is_past none now = false
is_past (some t) now = leb t now

unfoldable pub notify_all : Debounce → List ℕ → Debounce
unfolding notify
notify_all d [] = d
notify_all d (t ∷ ts) = notify_all (notify d t) ts

abbrev pub last_of : ℕ → List ℕ → ℕ
last_of t [] = t
last_of t (u ∷ ts) = last_of u ts

notify_all-burst :
    (t u : ℕ) (ts : List ℕ)
    → notify_all (record { first = some t; latest = some u }) ts
      ≡ record { first = some t; latest = some (last_of u ts) }
unfolding notify_all
notify_all-burst t u [] = refl
notify_all-burst t u (v ∷ ts) = notify_all-burst t v ts

module _ (limit : ℕ) where
  unfoldable pub deadline : Debounce → WatchConfig → Option ℕ
  deadline d config = do
    latest ← d.latest
    quiet ← checked_add limit latest config.debounce
    first ← d.first
    burst ← checked_add limit first config.max_burst
    some (min quiet burst)

  unfoldable pub take_due : Debounce → ℕ → WatchConfig → Debounce × Bool
  unfolding deadline
  take_due d now config = if is_past (deadline d config) now then (idle, true) else (d, false)

  -- A burst of events at `t`, then at `ts`, is due at the moment that is `debounce` after its last
  -- event or `max_burst` after its first one, whichever comes first, and is then taken and the
  -- debouncer idle; before that moment nothing changes. (The two sums are within the platform's
  -- largest instant.)
  pub take_due-burst :
      (config : WatchConfig) (t : ℕ) (ts : List ℕ) (now : ℕ)
      → last_of t ts + config.debounce ≤ limit
      → t + config.max_burst ≤ limit
      → let d = notify_all idle (t ∷ ts) in
        let due = min (last_of t ts + config.debounce) (t + config.max_burst) in
        take_due d now config ≡ (if leb due now then (idle, true) else (d, false))
  unfolding take_due notify_all notify
  take_due-burst config t ts now h k = rw (notify_all-burst t t ts) (ground arith)

pub record AuditSchedule : Type 0 where
  pub last_full_round : ℕ

abbrev pub new_audit : ℕ → AuditSchedule
new_audit now = record { last_full_round = now }

unfoldable pub completed_full_round : AuditSchedule → ℕ → AuditSchedule
completed_full_round a now = record a { last_full_round = now }

module _ (limit : ℕ) where
  unfoldable pub audit_deadline : AuditSchedule → WatchConfig → Option ℕ
  audit_deadline a config = checked_add limit a.last_full_round config.safety_audit

  unfoldable pub is_audit_due : AuditSchedule → ℕ → WatchConfig → Bool
  unfolding audit_deadline
  is_audit_due a now config = elim (audit_deadline a config) [ none ↦ true | some t ↦ leb t now ]

  -- After a full round at `t` an audit is due exactly from `safety_audit` later on, whatever round
  -- came before; if that moment is past the platform's largest instant, it is due at once.
  is_audit_due-completed :
      (a : AuditSchedule) (config : WatchConfig) (t now : ℕ)
      → (is_audit_due (completed_full_round a t) now config ≡ true)
        ↔ ((t + config.safety_audit ≤ now) ⊎ (limit < t + config.safety_audit))
  unfolding is_audit_due completed_full_round
  is_audit_due-completed a config t now = (λ h. ground arith, λ h. ground arith)
