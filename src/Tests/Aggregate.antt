-- ===== src/Tests/Aggregate.antt =====
-- The sum of the four samples of Tests/Rollup.antt, from the rollup and from the rows.
use sqtseries.Prelude.{ℕ, ◌+◌, ◌*◌, ◌≡◌, refl, true, none, some, List, [], ◌∷◌, arith, nat_eq}
use sqtseries.Prelude.Sorted.{sorted}
use sqtseries.Dict.{lookup, assign}
use sqtseries.Schema.{hour_ns, month_start_ns}
use sqtseries.Partials.{partials}
use sqtseries.Rollup.History.{Reached-IsSound}
use sqtseries.Scan.{asc, query_time_range}
use sqtseries.Query.{
  fetch, rollup_eligible, rollup_window_partials, left_edge, right_edge, middle, bucket_partials,
  merge_partials,
}
use sqtseries.Query.Aggregate.{name_of, whole_window_value}
use sqtseries.Query.Aggregate.Same.{Agrees, whole_window_same}
use sqtseries.Agg.{sum, aggregate_series}
use sqtseries.Tests.Numbers.{numbers}
use sqtseries.Tests.Agg.{floats}
use sqtseries.Tests.Rollup.{rolled, now, served, rolled-Reached}

numbers-Agrees : Agrees numbers floats
numbers-Agrees = record {
  add = λ v w. refl;
  least = λ v w. ground arith;
  greatest = λ v w. ground arith;
}

eligible : rollup_eligible now rolled none (some now) none ≡ true
unfolding rollup_eligible
eligible = refl

served_to_now :
    rollup_window_partials numbers 100 now rolled (1 ∷ []) none (some now) none ≡ some served
unfolding rollup_window_partials left_edge right_edge middle bucket_partials merge_partials
    query_time_range partials lookup sorted month_start_ns assign
served_to_now = refl

abbrev rows : List (ℕ × ℕ)
rows = (5, 10) ∷ (hour_ns + 1, 20) ∷ (2 * hour_ns + 7, 5) ∷ (3 * hour_ns + 2, 8) ∷ []

rows_read : fetch 100 rolled (1 ∷ []) none (some now) asc none ≡ some rows
unfolding fetch query_time_range lookup sorted month_start_ns
rows_read = refl

whole_window_same_example :
    whole_window_value numbers floats sum served ≡ aggregate_series floats (name_of sum) rows
whole_window_same_example =
    whole_window_same numbers floats numbers-Agrees 100 now now none rolled (1 ∷ []) sum served rows
      (Reached-IsSound numbers rolled-Reached) refl eligible served_to_now rows_read
