-- ===== src/Core/Time.antt =====
-- Instants in UTC, as microseconds since 1970-01-01: what `datetime.now(tz=timezone.utc)` returns,
-- and the two truncations of `BillingService.get_spending_status`
-- (packages/billing/src/service.py). A `timedelta` is a number of microseconds.
use plomio.Prelude.{
  ℕ, zero, suc, ◌+◌, ◌-◌, ◌*◌, ◌/◌, ◌%◌, ◌≤◌, ◌≡◌, refl, Bool, ◌&&◌, ◌||◌, arith, ltb, ◌==◌, not,
  if◌then◌else◌, Bool-cases, inl, inr,
}

abbrev pub minute : ℕ
minute = 60_000_000

abbrev pub day : ℕ
day = 86_400_000_000

is_leap : ℕ → Bool
is_leap y = (y % 4 == 0) && (not (y % 100 == 0) || (y % 400 == 0))

-- Months are numbered from 0.
days_in_month : ℕ → ℕ → ℕ
unfolding is_leap
days_in_month y m =
    if m == 1
    then (if is_leap y then 29 else 28)
    else (if m == 3 || m == 5 || m == 8 || m == 10 then 30 else 31)

-- The first day of the month that holds day `d`, where month `m` of year `y` begins on `start`.
-- Each round passes a month, so `d` rounds reach it.
first_of_month : ℕ → ℕ → ℕ → ℕ → ℕ → ℕ
unfolding days_in_month
first_of_month zero y m start d = start
first_of_month (suc fuel) y m start d =
    let next =
      first_of_month fuel (if m == 11 then y + 1 else y) (if m == 11 then 0 else m + 1)
        (start + days_in_month y m) d in
    if ltb d (start + days_in_month y m) then start else next

-- `now.replace(hour=0, minute=0, second=0, microsecond=0)`
pub day_start : ℕ → ℕ
day_start now = now - now % day

-- `day_start.replace(day=1)`
pub month_start : ℕ → ℕ
unfolding first_of_month
month_start now = first_of_month (now / day) 1970 0 0 (now / day) * day

first_of_month-le : (fuel y m start d : ℕ) → start ≤ d → first_of_month fuel y m start d ≤ d
unfolding first_of_month
first_of_month-le zero y m start d h = h
first_of_month-le (suc fuel) y m start d h = elim (Bool-cases (ltb d (start + days_in_month y m))) [
  | inl here ↦ rw here h
  | inr later ↦ rw later (first_of_month-le fuel _ _ (start + days_in_month y m) d (ground arith))
]

pub day_start-le : (now : ℕ) → day_start now ≤ now
unfolding day_start
day_start-le now = omega arith

-- A month begins no later than the day that it holds.
pub month_start-le-day_start : (now : ℕ) → month_start now ≤ day_start now
unfolding month_start day_start
month_start-le-day_start now =
    omega (arith, first_of_month-le (now / day) 1970 0 0 (now / day) (omega arith))

-- 2024-02-29 12:00 and 2026-11-26 03:00.
month_start_leap : month_start (19782 * day + 43_200_000_000) ≡ 19754 * day
unfolding month_start
month_start_leap = refl

month_start_november : month_start (20783 * day + 10_800_000_000) ≡ 20758 * day
unfolding month_start
month_start_november = refl
