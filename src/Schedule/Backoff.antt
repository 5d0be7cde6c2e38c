-- ===== src/Schedule/Backoff.antt =====
-- What failures of a scheduled query do to its next run.
use native.Mathlib.Nat.{pow-le-pow_right}
use redash.Prelude.{
  ℕ, ◌+◌, ◌*◌, ◌^◌, ◌≤◌, ◌<◌, ◌≡◌, refl, ◌≢◌, Bool, List, arith, ltb, nat_eq, string_eq, list_eq,
  option_eq,
}
use redash.Schedule.Clock.{Checked, ok, raise, ◌>>=◌, minute, end_of_time, plus}
use redash.Schedule.{hour_and_minute, daily, next_iteration, back_off, should_schedule_next}
use redash.Schedule.Daily.{daily-lt, hour_and_minute_bounds}

two_pow-ge : (n : ℕ) → 32 ≤ n → 2 ^ 32 ≤ 2 ^ n
two_pow-ge n h = pow-le-pow_right (omega arith) h

module _ (previous next : ℕ) (schedule : List ℕ) where
  parsed-ge :
      (parsed : Checked (ℕ × ℕ))
      → hour_and_minute schedule ≡ parsed
      → (parsed >>= λ (h, m). daily previous h m) ≡ ok next
      → previous ≤ next
  parsed-ge (raise e) p h = cc
  parsed-ge (ok (h, m)) p e =
      let (vh, vm) = hour_and_minute_bounds schedule h m p in
      omega (arith, daily-lt h m vh vm previous next e)

  -- The next iteration is never before the previous one.
  next_iteration-ge : next_iteration previous schedule ≡ ok next → previous ≤ next
  unfolding next_iteration plus
  next_iteration-ge e = ground (arith, parsed-ge (hour_and_minute schedule) refl)

-- A positive number of failures delays a run by two to that power, in minutes: the query is due that much
-- later, just where it would have been due without failures.
pub failures_delay :
    (previous now : ℕ) (schedule : List ℕ) (failures next : ℕ)
    → next_iteration previous schedule ≡ ok next
    → next + 2 ^ failures * minute < end_of_time
    → 0 < failures
    → should_schedule_next previous (now + 2 ^ failures * minute) schedule failures
      ≡ should_schedule_next previous now schedule 0
unfolding should_schedule_next back_off plus
failures_delay previous now schedule failures next e room some_failures = ground arith

-- From 32 failures on (in a row, with a previous run late enough for 2 ^ 32 minutes to pass the year 9999)
-- the question whether a query is due has no answer: an exception is raised.
pub failures_overflow :
    (previous now : ℕ) (schedule : List ℕ) (failures : ℕ) (b : Bool)
    → 32 ≤ failures
    → end_of_time ≤ previous + 2 ^ 32 * minute
    → should_schedule_next previous now schedule failures ≢ ok b
unfolding should_schedule_next back_off plus
failures_overflow previous now schedule failures b many late =
    λ e. go (next_iteration previous schedule) refl e
  where
    go :
        (c : Checked ℕ)
        → next_iteration previous schedule ≡ c
        → (c >>= λ next. back_off failures next >>= λ next. ok (ltb next now)) ≡ ok b
        → ⊥
    go (raise x) p e = cc
    go (ok next) p e =
        ground (arith, two_pow-ge failures many, next_iteration-ge previous next schedule p)
