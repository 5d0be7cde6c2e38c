-- ===== src/Schedule.antt =====
-- `should_schedule_next` of redash/models.py. A time is a number of microseconds since the least
-- `datetime`; a schedule is the list of its characters, ASCII ones.
pub mod Clock
pub mod Daily
pub mod Backoff
pub mod Outdated
use redash.Prelude.{
  ℕ, zero, suc, ◌+◌, ◌-◌, ◌*◌, ◌/◌, ◌%◌, ◌^◌, ◌≤◌, ◌<◌, min, max, String, ◌≡◌, refl, sym, ap, ◌∙◌,
  subst, ◌≢◌, ◌↔◌, ◌⊎◌, inl, inr, Bool, true, false, ◌&&◌, ◌||◌, not, Option, none, some, List, [],
  ◌∷◌, ◌++◌, map, arith, ltb, leb, nat_beq, if◌then◌else◌, ltb→lt, lt→ltb, leb→le, nat_beq_iff,
  tests, Eq, ◌==◌, nat_eq, string_eq, list_eq, option_eq, list_beq_iff, option_beq_iff, Bool-cases,
  Option-cases, is_some, length, take, drop, select, find, any, all, length-append,
  length-select-le, any-append, contains, contains-append, reject, update, option_all-find,
  option_all, any-reject_self, length-update, without_first, count, count-without_first,
  count-without_first_ne, contains-eq-ltb, Assoc, lookup, insert, remove, lookup-insert,
  lookup-remove,
}
use redash.Schedule.Clock.{
  Checked, ok, raise, value_error, overflow_error, ◌>>=◌, second, minute, day, plus, minus, replace,
}

abbrev is_digit : ℕ → Bool
is_digit c = leb 48 c && leb c 57

-- `schedule.isdigit()`
unfoldable pub isdigit : List ℕ → Bool
isdigit [] = false
isdigit (c ∷ cs) = all is_digit (c ∷ cs)

unfoldable pub digits_value : ℕ → List ℕ → ℕ
digits_value acc [] = acc
digits_value acc (c ∷ cs) = digits_value (acc * 10 + (c - 48)) cs

abbrev is_space : ℕ → Bool
is_space c = c == 32 || (leb 9 c && leb c 13)

unfoldable pub lstrip : List ℕ → List ℕ
lstrip [] = []
lstrip (c ∷ cs) = let rest = lstrip cs in if is_space c then rest else c ∷ cs

unfoldable pub rstrip : List ℕ → List ℕ
rstrip [] = []
rstrip (c ∷ cs) = keep c (rstrip cs)
  where
    keep : ℕ → List ℕ → List ℕ
    keep c [] = if is_space c then [] else c ∷ []
    keep c (d ∷ ds) = c ∷ d ∷ ds

-- `int(text)` for text that stands for a number of at least 0.
unfoldable pub unsigned : List ℕ → Option ℕ
unfolding isdigit digits_value
unsigned cs = if isdigit cs then some (digits_value 0 cs) else none

-- `int(text)`: blanks around are dropped and a sign may stand in front. `none` also stands for a
-- number below 0, for which `replace` raises the same ValueError.
unfoldable pub signed : List ℕ → Option ℕ
unfolding unsigned
signed [] = none
signed (c ∷ cs) =
    if c == b'+'
    then unsigned cs
    else if c == b'-'
    then elim (unsigned cs) [ none ↦ none | some n ↦ if n == 0 then some 0 else none ]
    else unsigned (c ∷ cs)

unfoldable pub int : List ℕ → Option ℕ
unfolding lstrip rstrip signed
int cs = signed (rstrip (lstrip cs))

-- `text.split(':')`
unfoldable pub split : ℕ → List ℕ → List (List ℕ)
split sep [] = [] ∷ []
split sep (c ∷ cs) = let rest = split sep cs in if c == sep then [] ∷ rest else onto c rest
  where
    onto : ℕ → List (List ℕ) → List (List ℕ)
    onto c [] = (c ∷ []) ∷ []
    onto c (part ∷ parts) = (c ∷ part) ∷ parts

-- `hour, minute = schedule.split(':')`
unfoldable pub pair_of : List (List ℕ) → Checked (List ℕ × List ℕ)
pair_of (hour ∷ minute ∷ []) = ok (hour, minute)
pair_of _ = raise value_error

abbrev to_int : List ℕ → Checked ℕ
to_int cs = elim (int cs) [ none ↦ raise value_error | some n ↦ ok n ]

-- The two numbers of 'HH:MM', as `replace` accepts them.
unfoldable pub hour_and_minute : List ℕ → Checked (ℕ × ℕ)
unfolding pair_of
hour_and_minute schedule = do
  (h, m) ← pair_of (split b':' schedule)
  hour ← to_int h
  minute ← to_int m
  if ltb hour 24 && ltb minute 60 then ok (hour, minute) else raise value_error

-- The branch for 'HH:MM': the iteration after `previous`.
unfoldable pub daily : ℕ → ℕ → ℕ → Checked ℕ
daily previous hour minute =
    let normalized = replace previous hour minute in
    do
      previous' ← if ltb previous normalized then minus normalized day else ok previous
      next ← plus previous' day
      ok (replace next hour minute)

unfoldable pub next_iteration : ℕ → List ℕ → Checked ℕ
unfolding daily
next_iteration previous schedule =
    if isdigit schedule
    then plus previous (digits_value 0 schedule * second)
    else do (hour, minute) ← hour_and_minute schedule; daily previous hour minute

-- `if failures: next_iteration += timedelta(minutes=2**failures)`
unfoldable pub back_off : ℕ → ℕ → Checked ℕ
back_off failures next = if failures == 0 then ok next else plus next (2 ^ failures * minute)

unfoldable pub should_schedule_next : ℕ → ℕ → List ℕ → ℕ → Checked Bool
should_schedule_next previous now schedule failures = do
  next ← next_iteration previous schedule
  next ← back_off failures next
  ok (ltb next now)
