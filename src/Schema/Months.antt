-- ===== src/Schema/Months.antt =====
-- engine/schema.py: the months of timestamps and of hours.
use sqtseries.Schema.{hour_ns}
use native.Mathlib.Nat.{add-zero}
use native.Mathlib.Decide.{dec_lt}
use native.Mathlib.Nat.{add-suc}
use sqtseries.Schema.{month_of_day}
use sqtseries.Prelude.{
  ℕ, zero, suc, ◌+◌, ◌-◌, ◌*◌, ◌/◌, ◌≤◌, ◌<◌, ◌≡◌, refl, inl, inr, arith, ltb, ltb→lt, Bool-cases,
  nat_eq, string_eq,
}
use sqtseries.Schema.{
  day_ns, month_days, start_day, month_start_ns, month_from, month_partition_key,
}

month_days-pos : (n : ℕ) → 0 < month_days n
unfolding month_days
month_days-pos n = ground arith

month_from_bounds :
    (fuel day n : ℕ)
    → day < fuel
    → (start_day (month_from fuel day n) ≤ start_day n + day)
      × (start_day n + day < start_day (suc (month_from fuel day n)))
unfolding month_from start_day
month_from_bounds zero day n h = absurd (omega arith)
month_from_bounds (suc fuel) day n h = elim (Bool-cases (ltb day (month_days n))) [
  | inl here ↦ rw here (omega (arith, ltb→lt day (month_days n) here))
  | inr later ↦ rw later (
      let ih =
        month_from_bounds fuel (day - month_days n) (suc n) (ground (arith, month_days-pos n)) in
      ground (arith, ih))
]

month_of_day_bounds :
    (day : ℕ) → (start_day (month_of_day day) ≤ day) × (day < start_day (suc (month_of_day day)))
unfolding month_of_day
month_of_day_bounds day =
    let ih = month_from_bounds (suc day) day 0 (omega arith) in
    let none_before : start_day 0 ≡ 0 = unfold start_day in refl in
    omega (arith, ih.0, ih.1, none_before)

day_of_ns : (ts : ℕ) → ts / 1000 / 86400000000 ≡ ts / day_ns
day_of_ns ts = omega arith

-- A timestamp lies in the month of its partition: not before the month's start, and before the
-- start of the next month.
pub month_partition_key_bounds :
    (ts : ℕ)
    → (month_start_ns (month_partition_key ts) ≤ ts)
      × (ts < month_start_ns (suc (month_partition_key ts)))
unfolding month_partition_key
month_partition_key_bounds ts =
    let day : ℕ = ts / 1000 / 86400000000 in
    let (after, before) = month_of_day_bounds day in
    unfold month_start_ns in omega (arith, after, before, day_of_ns ts)

start_day_mono : (a k : ℕ) → start_day a ≤ start_day (a + k)
unfolding start_day
start_day_mono a zero = rw add-zero (omega arith)
start_day_mono a (suc k) = rw add-suc (omega (arith, start_day_mono a k))

start_day-le : (a b : ℕ) → a ≤ b → start_day a ≤ start_day b
start_day-le a b h = let e : a + (b - a) ≡ b = omega arith in rw e at (start_day_mono a (b - a))

-- The month of a timestamp is the only one whose bounds hold it.
pub month_partition_key_unique :
    (ts m : ℕ) → month_start_ns m ≤ ts → ts < month_start_ns (suc m) → month_partition_key ts ≡ m
month_partition_key_unique ts m after before =
    let k : ℕ = month_partition_key ts in
    let (low, high) = month_partition_key_bounds ts in
    elim (dec_lt k m) [
      | yes p ↦
          absurd (omega (arith, start_day-le (suc k) m p, start_ns k, start_ns m, start_ns (suc k)))
      | no p ↦ elim (dec_lt m k) [
        | yes q ↦
            absurd
              (omega (arith, start_day-le (suc m) k q, start_ns k, start_ns m, start_ns (suc m)))
        | no q ↦ omega arith
      ]
    ]
  where
    start_ns : (n : ℕ) → month_start_ns n ≡ start_day n * day_ns
    start_ns n = unfold month_start_ns in refl

-- An hour lies in one month: its start has the partition of every timestamp in it.
pub month_of_hour : (ts : ℕ) → month_partition_key (ts / hour_ns * hour_ns) ≡ month_partition_key ts
month_of_hour ts =
    let m : ℕ = month_partition_key ts in
    let (low, high) = month_partition_key_bounds ts in
    let start : month_start_ns m ≡ start_day m * day_ns = unfold month_start_ns in refl in
    month_partition_key_unique (ts / hour_ns * hour_ns) m (omega arith) (omega arith)

-- Months start on the hour.
pub month_start_ns_aligned : (m : ℕ) → month_start_ns m / hour_ns * hour_ns ≡ month_start_ns m
unfolding month_start_ns
month_start_ns_aligned m = omega arith
