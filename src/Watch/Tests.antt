-- ===== src/Watch/Tests.antt =====
-- Runs of the watch timers, and their theorems at concrete data.
use file_local.Prelude.{◌≡◌, refl, ◌≤◌, true, none, some, [], ◌∷◌, arith, All, length, get_or, ◌*◌}
use file_local.Prelude.Results.{err}
use file_local.Prelude.Order.{pos, negsuc}
use file_local.Watch.{default_config, seconds}
use file_local.Watch.Escape.{
  bounded_error, bounded_error-IsPrintable, IsPrintable, max_watch_error_chars,
}
use file_local.Watch.Status
use file_local.Watch.Status.{
  IsWithin, current, Shared, complete, complete-run_changed, healthy, lost_with, initial,
  run-lost_sticky, snapshot,
}
use file_local.Watch.Debounce.{idle, notify_all, take_due, take_due-burst}
use file_local.Watch.Heartbeat
use file_local.Watch.Heartbeat.{
  due, due-ping, new_heartbeat, ping, timed_out, sent, sent-AscendsFrom,
}
use file_local.Watch.Retry.{delays, failed, failed_bounds}

abbrev fresh : Shared
fresh = record { status = initial; channel = record { is_connected = true; waiting = [] } }

-- `backend` and a newline.
escaped_newline :
    bounded_error (b'o' ∷ b'k' ∷ 0x0a ∷ 0xe9 ∷ [])
    ≡ b'o' ∷ b'k' ∷ 0x5c ∷ b'n' ∷ 0x5c ∷ b'u' ∷ b'{' ∷ b'e' ∷ b'9' ∷ b'}' ∷ []
unfolding bounded_error
escaped_newline = refl

bounded_error-IsPrintable_example :
    (length (bounded_error (0x0a ∷ [])) ≤ max_watch_error_chars)
    × All IsPrintable (bounded_error (0x0a ∷ []))
bounded_error-IsPrintable_example = bounded_error-IsPrintable (0x0a ∷ [])

saturated_wake : Status.run fresh (Status.changes ∷ Status.changes ∷ []) ≡ record {
  status = record { generation = 2; lost = none };
  channel = record { is_connected = true; waiting = Status.changes ∷ [] };
}
unfolding Status.run Status.step Status.change Status.best_effort_wake
saturated_wake = refl

lost_shared : Shared
lost_shared = record {
  status = record { generation = 3; lost = some (b'x' ∷ []) };
  channel = record { is_connected = true; waiting = [] };
}

run-lost_sticky_example :
    complete (Status.run lost_shared (Status.loses [] ∷ Status.changes ∷ [])).status 2 1
    ≡ (err (b'x' ∷ []), 1)
unfolding lost_shared
run-lost_sticky_example =
    (run-lost_sticky lost_shared (Status.loses [] ∷ Status.changes ∷ []) (b'x' ∷ []) 2 1 refl).2

complete-run_changed_example :
    Status.IsAwake
      (Status.changes ∷ [])
      (Status.run fresh (Status.receives ∷ Status.changes ∷ Status.changes ∷ []))
unfolding snapshot
complete-run_changed_example =
    (complete-run_changed fresh (Status.receives ∷ []) (Status.changes ∷ []) 0 0 refl
      (omega arith)).1

take_due-burst_example :
    take_due (seconds 100) (notify_all idle (0 ∷ 200_000_000 ∷ [])) 450_000_000 default_config
    ≡ (idle, true)
take_due-burst_example =
    take_due-burst (seconds 100) default_config 0 (200_000_000 ∷ []) 450_000_000 (omega arith)
      (omega arith)

pinged : Heartbeat.Heartbeat
pinged = record { last_activity = 0; awaiting = some (1, seconds 61); next_nonce = 2 }

due-ping_example : (Heartbeat.pong pinged 1 (seconds 40)).1 ≡ true
unfolding pinged due
due-ping_example =
    (due-ping (seconds 1000) (new_heartbeat 0) pinged (seconds 31) default_config 1 refl).4 1
      (seconds 40)

sent-AscendsFrom_example : Heartbeat.AscendsFrom 1 (
    sent (seconds 1000) default_config (new_heartbeat 0) (
      Heartbeat.polls (seconds 31)
      ∷ Heartbeat.pongs 1 (seconds 32)
      ∷ Heartbeat.polls (seconds 70)
      ∷ []))
sent-AscendsFrom_example = sent-AscendsFrom (seconds 1000) default_config (new_heartbeat 0) (
    Heartbeat.polls (seconds 31)
    ∷ Heartbeat.pongs 1 (seconds 32)
    ∷ Heartbeat.polls (seconds 70)
    ∷ [])

seventh_delay : (failed (record { failures = 9 }) (negsuc 4999)).0 ≡ seconds 48
unfolding failed
seventh_delay = refl

failed_bounds_example :
    (get_or delays 6 0 * 4 ≤ (failed (record { failures = 9 }) (pos 30_000)).0 * 5)
failed_bounds_example = (failed_bounds (record { failures = 9 }) (pos 30_000)).0
