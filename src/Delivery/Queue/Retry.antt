-- ===== src/Delivery/Queue/Retry.antt =====
-- How long a message waits after an attempt that failed.
use weiterleitung.Prelude.{
  ℕ, zero, suc, ◌+◌, ◌*◌, ◌^◌, ◌≤◌, ◌<◌, min, ◌≡◌, refl, sym, subst, ◌-◌, arith,
}
use native.Mathlib.Nat.{pow-suc}
use weiterleitung.Text.{Text}
use weiterleitung.Database.{OutboxRow}
use weiterleitung.Delivery.Queue.{backoff, nanoseconds_per_minute, failure_update}

power : ℕ → ℕ
power zero = 1
power (suc n) = 2 * power n

power-pow : (n : ℕ) → power n ≡ 2 ^ n
unfolding power
power-pow zero = refl
power-pow (suc n) = rw (power-pow n) (rw pow-suc (omega arith))

power_two : (n : ℕ) → 2 ≤ power (suc n)
unfolding power
power_two zero = omega arith
power_two (suc n) = omega (arith, power_two n)

pow_two : (n : ℕ) → 1 ≤ n → 2 ≤ 2 ^ n
pow_two n h =
    let e : n ≡ suc (n - 1) = omega arith in
    rw (← power-pow n) (subst (λ k. 2 ≤ power k) (sym e) (power_two (n - 1)))

backoff_bounds : (n : ℕ) → 1 ≤ n → (2 ≤ backoff n) × (backoff n ≤ 360)
unfolding backoff
backoff_bounds n h = (omega (arith, pow_two (min n 16) (omega arith)), omega arith)

-- Where an attempt fails and the maximum is not reached, the next attempt is at least two minutes
-- and at most six hours later.
pub failure_update-wait :
    (n max : ℕ) (error : Text) (time : ℕ) (r : OutboxRow)
    → n + 1 < max
    → (time + 2 * nanoseconds_per_minute ≤ (failure_update n max error time r).next_attempt_at)
      × ((failure_update n max error time r).next_attempt_at ≤ time + 360 * nanoseconds_per_minute)
unfolding failure_update
failure_update-wait n max error time r h = ground (arith, backoff_bounds (n + 1) (omega arith))
