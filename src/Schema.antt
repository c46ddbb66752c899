-- ===== src/Schema.antt =====
-- engine/schema.py: the months of the calendar, and the partition that holds a timestamp. A month is
-- a number, 0 for January 1970, that stands for the table `measurements_YYYY_MM`.
pub mod Months
use sqtseries.Prelude.{
  ℕ, zero, suc, ◌+◌, ◌-◌, ◌*◌, ◌/◌, ◌%◌, ◌^◌, ◌≤◌, ◌<◌, min, max, String, ◌≡◌, refl, sym, ap, ◌∙◌,
  ◌≢◌, ◌↔◌, ◌⊎◌, inl, inr, Bool, true, false, ◌&&◌, ◌||◌, not, Option, none, some, List, [], ◌∷◌,
  ◌++◌, map, arith, ltb, leb, ◌==◌, if◌then◌else◌, ltb→lt, lt→ltb, leb→le, ==_iff, Bool-cases,
  Option-cases, Eq, eq_of_discrete, string_discrete, nat_eq, string_eq, length, take, drop, keep,
  length-append, length-take, length-drop, length-keep-le, All, All-append,
}

abbrev pub day_ns : ℕ
day_ns = 86400000000000

abbrev pub hour_ns : ℕ
hour_ns = 3600000000000

-- the calendar of `datetime`
unfoldable pub is_leap : ℕ → Bool
is_leap y = (y % 4 == 0) && (not (y % 100 == 0) || (y % 400 == 0))

unfoldable pub days_in_month : ℕ → ℕ → ℕ
unfolding is_leap
days_in_month y m =
    if m == 2
    then (if is_leap y then 29 else 28)
    else if (m == 4 || m == 6) || (m == 9 || m == 11)
    then 30
    else 31

abbrev pub year_of : ℕ → ℕ
year_of n = 1970 + n / 12

abbrev pub month_in_year : ℕ → ℕ
month_in_year n = n % 12 + 1

unfoldable pub month_days : ℕ → ℕ
unfolding days_in_month
month_days n = days_in_month (year_of n) (month_in_year n)

-- days from 1970-01-01 to the first day of the month
unfoldable pub start_day : ℕ → ℕ
unfolding month_days
start_day zero = 0
start_day (suc n) = start_day n + month_days n

-- `int(datetime(year, month, 1).timestamp() * 1e9)`
unfoldable pub month_start_ns : ℕ → ℕ
unfolding start_day
month_start_ns n = start_day n * day_ns

-- The month of a day: walk the months from `n` on, `day` days after its first.
unfoldable pub month_from : ℕ → ℕ → ℕ → ℕ
unfolding month_days
month_from zero day n = n
month_from (suc fuel) day n =
    let later = month_from fuel (day - month_days n) (suc n) in
    if ltb day (month_days n) then n else later

-- the month of a day since 1970-01-01
unfoldable pub month_of_day : ℕ → ℕ
unfolding month_from
month_of_day day = month_from (suc day) day 0

-- `datetime(1970, 1, 1) + timedelta(microseconds=ts_ns // 1000)`, its year and month
unfoldable pub month_partition_key : ℕ → ℕ
unfolding month_of_day
month_partition_key ts_ns = month_of_day (ts_ns / 1000 / 86400000000)
