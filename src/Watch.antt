-- ===== src/Watch.antt =====
-- src/watch.rs: the state that a watcher and its coordinator share, and the timers of a persistent
-- watch session. Instants and durations are numbers of nanoseconds.
pub mod Escape
pub mod Status
pub mod Debounce
pub mod Heartbeat
pub mod Retry
mod Tests
use file_local.Prelude.{ℕ, ◌+◌, ◌*◌, ◌^◌, ◌-◌, Option, none, some, ltb, leb, if◌then◌else◌}

abbrev pub seconds : ℕ → ℕ
seconds n = n * 1_000_000_000

pub record WatchConfig : Type 0 where
  pub debounce : ℕ
  pub max_burst : ℕ
  pub heartbeat : ℕ
  pub pong_timeout : ℕ
  pub safety_audit : ℕ

abbrev pub default_config : WatchConfig
default_config = record {
  debounce = 250_000_000;
  max_burst = seconds 2;
  heartbeat = seconds 30;
  pong_timeout = seconds 30;
  safety_audit = seconds (15 * 60);
}

abbrev pub u64_max : ℕ
u64_max = 2 ^ 64 - 1

-- `checked_add` of a type whose largest value is `limit`: an integer type, or `Instant`, whose
-- largest value depends on the platform.
abbrev pub checked_add : ℕ → ℕ → ℕ → Option ℕ
checked_add limit a b = if leb (a + b) limit then some (a + b) else none
