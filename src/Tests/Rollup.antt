-- ===== src/Tests/Rollup.antt =====
-- A service that stores four samples of one series, rolls three hours and answers from the rollup.
use sqtseries.Dict.{assign}
use sqtseries.Schema.{month_start_ns}
use sqtseries.Prelude.Sorted.{sorted}
use sqtseries.Prelude.{
  ℕ, suc, ◌+◌, ◌*◌, ◌≤◌, ◌<◌, max, ◌≡◌, refl, true, none, some, List, [], ◌∷◌, arith, nat_eq,
  string_eq, length,
}
use sqtseries.Tests.Numbers.{numbers}
use sqtseries.Dict.{lookup, assign}
use sqtseries.Schema.{hour_ns, month_partition_key, month_start_ns}
use sqtseries.Schema.Months.{month_partition_key_bounds}
use sqtseries.Partials.{Partial, single, partials}
use sqtseries.Partials.Gather.{gather}
use sqtseries.Rollup.{
  Row, Db, empty, HourKey, rollup_new_hours, rollup_watermark, rollup_partition, roll_all, settle,
  completed_hour_ns, partitions_for_range,
}
use sqtseries.Rollup.Writes.{insert_many}
use sqtseries.Rollup.Sound.{IsSound, rows_in}
use sqtseries.Rollup.History.{write, pass, Reached, new, next, Reached-IsSound}
use sqtseries.Rollup.Advance.{rollup_new_hours_total}
use sqtseries.Scan.{asc, query_time_range}
use sqtseries.Scan.Gathered.{chosen}
use sqtseries.Scan.Complete.{query_time_range_complete}
use sqtseries.Query.{
  BucketKey, bucket_eq, rollup_window_partials, rollup_eligible, eff_end, left_edge, right_edge,
  middle, bucket_partials, merge_partials,
}
use sqtseries.Query.Buckets.{at_bucket}
use sqtseries.Prelude.{◌-◌}
use sqtseries.Prelude.Double.{to_double, unit_of, nearest}
use sqtseries.Query.Window.{rollup_window_exact}

abbrev pub row : ℕ → ℕ → Row ℕ
row ts v = record { sid = 1; ts = ts; value = v }

abbrev pub batch : List (Row ℕ)
batch = row 5 10 ∷ row (hour_ns + 1) 20 ∷ row (2 * hour_ns + 7) 5 ∷ row (3 * hour_ns + 2) 8 ∷ []

abbrev pub stored : Db ℕ
stored = record {
  partitions =
      (0, row (3 * hour_ns + 2) 8 ∷ row (2 * hour_ns + 7) 5 ∷ row (hour_ns + 1) 20 ∷ row 5 10 ∷ [])
      ∷ [];
  rollup = [];
  watermark = none;
}

insert_accepted : insert_many batch empty ≡ some (stored, 4)
unfolding insert_many month_partition_key lookup assign
insert_accepted = refl

abbrev pub rolled_hours : List (HourKey × Partial ℕ)
rolled_hours = ((1, 2 * hour_ns), single 5) ∷ ((1, hour_ns), single 20) ∷ ((1, 0), single 10) ∷ []

abbrev pub rolled : Db ℕ
rolled = record stored { rollup = rolled_hours; watermark = some (3 * hour_ns) }

abbrev pub now : ℕ
now = 3 * hour_ns + 9

batch_rolled : rollup_new_hours numbers now 0 stored ≡ some (rolled, 3)
unfolding rollup_new_hours rollup_partition roll_all settle rollup_watermark completed_hour_ns
    to_double unit_of nearest partitions_for_range partials sorted month_start_ns lookup
batch_rolled = refl

-- A hundred nanoseconds before an hour begins, the float is that of its beginning.
running_hour_completed : completed_hour_ns (1700002800000000000 - 100) 0 ≡ 1700002800000000000
unfolding completed_hour_ns to_double unit_of nearest
running_hour_completed = refl

abbrev pub served : List (BucketKey × Partial ℕ)
served = (none, record { count = 4; sum = 43; lowest = 5; highest = 20 }) ∷ []

window_eligible : rollup_eligible (3 * hour_ns + 2) rolled none none none ≡ true
unfolding rollup_eligible
window_eligible = refl

window_served : rollup_window_partials numbers 100 now rolled (1 ∷ []) none none none ≡ some served
unfolding rollup_window_partials left_edge right_edge middle bucket_partials merge_partials
    query_time_range partials lookup sorted month_start_ns assign
window_served = refl

pub rolled-Reached : Reached numbers rolled
rolled-Reached = next (next new (write batch 4 insert_accepted)) (pass now 0 3 batch_rolled)

Reached-IsSound_example : IsSound numbers rolled
Reached-IsSound_example = Reached-IsSound numbers rolled-Reached

pub stored-IsSound : IsSound numbers stored
stored-IsSound = Reached-IsSound numbers (next new (write batch 4 insert_accepted))

rollup_new_hours_total_example :
    (db' : Db ℕ) × (written : ℕ) × (rollup_new_hours numbers now 0 stored ≡ some (db', written))
    × IsSound numbers db'
    × (db'.partitions ≡ stored.partitions)
    × (rollup_watermark db' ≡ max (rollup_watermark stored) (completed_hour_ns now 0))
rollup_new_hours_total_example = rollup_new_hours_total numbers now 0 stored stored-IsSound

query_short : length (query_time_range (1 ∷ []) none none (some 10) asc stored) < 10
unfolding query_time_range lookup sorted
query_short = omega arith

query_time_range_complete_example :
    gather
      (partials numbers)
      (at_bucket numbers none none)
      (query_time_range (1 ∷ []) none none (some 10) asc stored)
    ≡ gather
        (partials numbers)
        (chosen (partials numbers) (at_bucket numbers none none) (1 ∷ []) none none)
        (rows_in stored.partitions)
query_time_range_complete_example =
    query_time_range_complete (partials numbers) (at_bucket numbers none none) (1 ∷ []) none none
      stored 10 stored-IsSound.months stored-IsSound.placed query_short

rollup_window_exact_example :
    lookup none served
    ≡ gather
        (partials numbers)
        (chosen
          (partials numbers)
          (at_bucket numbers none none)
          (1 ∷ [])
          none
          (some (eff_end now none)))
        (rows_in rolled.partitions)
rollup_window_exact_example =
    rollup_window_exact numbers 100 now rolled (1 ∷ []) none none none (3 * hour_ns + 2) served none
      Reached-IsSound_example window_eligible refl window_served

month_partition_key_bounds_example :
    (month_start_ns (month_partition_key 1767225599999999999) ≤ 1767225599999999999)
    × (1767225599999999999 < month_start_ns (suc (month_partition_key 1767225599999999999)))
month_partition_key_bounds_example = month_partition_key_bounds 1767225599999999999

-- the last nanosecond of 2025 is in December 2025
last_of_2025 : month_partition_key 1767225599999999999 ≡ 671
unfolding month_partition_key
last_of_2025 = refl
