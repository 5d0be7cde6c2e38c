-- ===== src/Schedule/Clock.antt =====
-- Python's `datetime` and `timedelta`, as numbers of microseconds, with their range checks.
use redash.Prelude.{
  ℕ, ◌+◌, ◌-◌, ◌*◌, ◌/◌, ◌%◌, ltb, leb, if◌then◌else◌, nat_eq, string_eq, list_eq, option_eq,
}

pub data Error : Type 0 where
  value_error overflow_error : Error

pub data Checked {ℓ} (A : Type ℓ) : Type ℓ where
  ok : A → Checked A
  raise : Error → Checked A

infixl 5 ◌>>=◌
abbrev pub ◌>>=◌ {ℓ κ} : {A : Type ℓ} {C : Type κ} → Checked A → (A → Checked C) → Checked C
ok a >>= f = f a
raise e >>= f = raise e

abbrev pub second : ℕ
second = 1_000_000

abbrev pub minute : ℕ
minute = 60_000_000

abbrev pub hour : ℕ
hour = 3_600_000_000

abbrev pub day : ℕ
day = 86_400_000_000

-- Past 9999-12-31 23:59:59.999999: there are 3652059 days in the years 1 to 9999.
abbrev pub end_of_time : ℕ
end_of_time = 3_652_059 * day

-- `t + timedelta(...)`, which raises OverflowError past the last `datetime`.
unfoldable pub plus : ℕ → ℕ → Checked ℕ
plus t d = if ltb (t + d) end_of_time then ok (t + d) else raise overflow_error

-- `t - timedelta(...)`, which raises OverflowError before the first one.
unfoldable pub minus : ℕ → ℕ → Checked ℕ
minus t d = if leb d t then ok (t - d) else raise overflow_error

-- `t.replace(hour=h, minute=m)`: the day, the second and the microsecond stay.
unfoldable pub replace : ℕ → ℕ → ℕ → ℕ
replace t h m = t / day * day + h * hour + m * minute + t % minute
