-- ===== src/Watch/Retry.antt =====
-- src/watch.rs: `RetryPolicy`, `RetryBackoff` and the jitter of a delay.
use file_local.Prelude.{
  ℕ, zero, suc, ◌+◌, ◌-◌, ◌*◌, ◌/◌, ◌^◌, ◌≤◌, ◌≡◌, refl, List, [], ◌∷◌, arith, min, get_or,
}
use file_local.Prelude.Order.{ℤ, pos, negsuc}
use file_local.Watch.{seconds, u64_max}

abbrev pub u128_max : ℕ
u128_max = 2 ^ 128 - 1

-- `saturating_add`, `saturating_mul` and `saturating_sub` of an unsigned type.
abbrev pub saturating_add : ℕ → ℕ → ℕ → ℕ
saturating_add limit a b = min (a + b) limit

abbrev pub saturating_mul : ℕ → ℕ → ℕ → ℕ
saturating_mul limit a b = min (a * b) limit

-- `RetryPolicy::default`.
abbrev pub delays : List ℕ
delays = seconds 1 ∷ seconds 2 ∷ seconds 4 ∷ seconds 8 ∷ seconds 16 ∷ seconds 30 ∷ seconds 60 ∷ []

pub record RetryBackoff : Type 0 where
  pub failures : ℕ

abbrev pub no_failures : RetryBackoff
no_failures = record { failures = 0 }

-- `jitter_basis_points.clamp(-2_000, 2_000)`.
unfoldable pub clamp_jitter : ℤ → ℤ
clamp_jitter (pos n) = pos (min n 2000)
clamp_jitter (negsuc n) = negsuc (min n 1999)

-- `apply_jitter`; the casts to `u64` and back keep the values that fit.
unfoldable pub apply_jitter : ℕ → ℤ → ℕ
apply_jitter nanos (pos n) =
    let magnitude = saturating_mul u128_max nanos n / 10_000 in
    min (saturating_add u128_max nanos magnitude) u64_max
apply_jitter nanos (negsuc n) =
    let magnitude = saturating_mul u128_max nanos (suc n) / 10_000 in
    min (nanos - magnitude) u64_max

-- `RetryBackoff::failed`: the delay, and the count of failures after it.
unfoldable pub failed : RetryBackoff → ℤ → ℕ × RetryBackoff
unfolding clamp_jitter apply_jitter
failed b jitter = (
  apply_jitter (get_or delays (min b.failures 6) 0) (clamp_jitter jitter),
  record { failures = saturating_add u64_max b.failures 1 },
)

unfoldable pub startup_round_succeeded : RetryBackoff → RetryBackoff
startup_round_succeeded b = record { failures = 0 }

delay_at_bounds :
    (i : ℕ) → i ≤ 6 → (seconds 1 ≤ get_or delays i 0) × (get_or delays i 0 ≤ seconds 60)
delay_at_bounds zero h = omega arith
delay_at_bounds (suc zero) h = omega arith
delay_at_bounds (suc (suc zero)) h = omega arith
delay_at_bounds (suc (suc (suc zero))) h = omega arith
delay_at_bounds (suc (suc (suc (suc zero)))) h = omega arith
delay_at_bounds (suc (suc (suc (suc (suc zero))))) h = omega arith
delay_at_bounds (suc (suc (suc (suc (suc (suc zero)))))) h = omega arith
delay_at_bounds (suc (suc (suc (suc (suc (suc (suc i))))))) h = absurd (omega arith)

magnitude_bound : (nanos k : ℕ) → k ≤ 2000 → (saturating_mul u128_max nanos k / 10_000) * 5 ≤ nanos
magnitude_bound nanos k h = let m : nanos * k ≤ nanos * 2000 = grind arith in omega arith

-- The jitter moves a delay of a minute at most by a fifth of it at most.
apply_jitter_bounds :
    (nanos : ℕ) (j : ℤ)
    → nanos ≤ seconds 60
    → (nanos * 4 ≤ apply_jitter nanos (clamp_jitter j) * 5)
      × (apply_jitter nanos (clamp_jitter j) * 5 ≤ nanos * 6)
unfolding apply_jitter clamp_jitter
apply_jitter_bounds nanos (pos n) h = (
  omega (arith, magnitude_bound nanos (min n 2000)),
  omega (arith, magnitude_bound nanos (min n 2000)),
)
apply_jitter_bounds nanos (negsuc n) h = (
  omega (arith, magnitude_bound nanos (suc (min n 1999))),
  omega (arith, magnitude_bound nanos (suc (min n 1999))),
)

-- A delay lies within a fifth of its step of the schedule, whatever jitter the caller supplies: the
-- step of the failure's number, and the last step from the seventh failure on. Each failure is
-- counted, up to the largest count.
pub failed_bounds :
    (b : RetryBackoff) (j : ℤ)
    → let step = get_or delays (min b.failures 6) 0 in
      (step * 4 ≤ (failed b j).0 * 5)
      × ((failed b j).0 * 5 ≤ step * 6)
      × ((failed b j).1.failures ≡ min (b.failures + 1) u64_max)
unfolding failed
failed_bounds b j =
    let step = get_or delays (min b.failures 6) 0 in
    let within = delay_at_bounds (min b.failures 6) (omega arith) in
    let jitter = apply_jitter_bounds step j within.1 in (jitter.0, jitter.1, refl)
