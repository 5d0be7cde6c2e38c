-- ===== src/Schedule/Daily.antt =====
-- The next run of a query that is scheduled daily.
use redash.Prelude.{
  ℕ, ◌+◌, ◌-◌, ◌*◌, ◌/◌, ◌%◌, ◌≤◌, ◌<◌, ◌≡◌, false, List, arith, ltb, if◌then◌else◌, nat_eq,
  string_eq, list_eq, option_eq,
}
use redash.Schedule.Clock.{ok, minute, hour, day, end_of_time, plus, minus, replace}
use redash.Schedule.{
  isdigit, hour_and_minute, daily, next_iteration, back_off, should_schedule_next,
}

module _ (h m : ℕ) (valid_hour : h < 24) (valid_minute : m < 60) where
  replace-mod : (t : ℕ) → replace t h m % day ≡ h * hour + m * minute + t % minute
  unfolding replace
  replace-mod t = omega arith

  replace-div : (t : ℕ) → replace t h m / day ≡ t / day
  unfolding replace
  replace-div t = omega arith

  -- `replace` sees of a time its day and what is left of its minute.
  replace-eq :
      (s t : ℕ) → s / day ≡ t / day → s % minute ≡ t % minute → replace s h m ≡ replace t h m
  unfolding replace
  replace-eq s t d r = rw (d, r)

  replace_late :
      (t : ℕ)
      → t < replace t h m
      → day ≤ replace t h m
      → replace (replace t h m - day + day) h m ≡ replace t h m
  replace_late t late low =
      replace-eq (replace t h m - day + day) t (omega (arith, replace-div t))
        (omega (arith, replace-mod t))

  replace-add_day : (t : ℕ) → replace (t + day) h m ≡ replace t h m + day
  unfolding replace
  replace-add_day t = omega arith

  replace-lt : (t : ℕ) → t < end_of_time → replace t h m < end_of_time
  replace-lt t k = omega (arith, replace-div t)

  next_day : ℕ → ℕ
  next_day t = if ltb t (replace t h m) then replace t h m else replace t h m + day

  next_day_bounds : (t : ℕ) → (t < next_day t) × (next_day t ≤ t + day)
  unfolding next_day replace
  next_day_bounds t = ground arith

  daily-eq : (t : ℕ) → day ≤ t → t + day < end_of_time → daily t h m ≡ ok (next_day t)
  unfolding daily plus minus next_day
  daily-eq t low high = ground (arith, replace_late t, replace-add_day t, replace-lt t)

  pub daily-lt : (t next : ℕ) → daily t h m ≡ ok next → t < next
  unfolding daily plus minus next_day
  daily-lt t next e = ground (arith, replace_late t, replace-add_day t, next_day_bounds t)

  next_day-mod : (t : ℕ) → next_day t % day ≡ h * hour + m * minute + t % minute
  unfolding next_day
  next_day-mod t = ground (arith, replace-mod t)

pub hour_and_minute_bounds :
    (schedule : List ℕ) (h m : ℕ) → hour_and_minute schedule ≡ ok (h, m) → (h < 24) × (m < 60)
unfolding hour_and_minute
hour_and_minute_bounds schedule h m e = ground arith

-- A query with the schedule 'HH:MM' and no failures is due once `now` is past the next run, which is the
-- one time in the day after the previous run that has this hour and minute, and the seconds and
-- microseconds of the previous run. (The previous run lies at least a day from the least and from the
-- last time there is.)
pub daily_schedule :
    (previous now : ℕ) (schedule : List ℕ) (h m : ℕ)
    → isdigit schedule ≡ false
    → hour_and_minute schedule ≡ ok (h, m)
    → day ≤ previous
    → previous + day < end_of_time
    → (next : ℕ) × (should_schedule_next previous now schedule 0 ≡ ok (ltb next now))
      × (previous < next)
      × (next ≤ previous + day)
      × (next % day ≡ h * hour + m * minute + previous % minute)
unfolding should_schedule_next next_iteration back_off
daily_schedule previous now schedule h m text parsed low high =
    let (vh, vm) = hour_and_minute_bounds schedule h m parsed in
    let (after, within) = next_day_bounds h m vh vm previous in
    (
      next_day h m vh vm previous,
      ground (arith, daily-eq h m vh vm previous),
      after,
      within,
      next_day-mod h m vh vm previous,
    )
