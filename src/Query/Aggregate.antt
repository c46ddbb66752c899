-- ===== src/Query/Aggregate.antt =====
-- query/builder.py: `aggregate` for one function, which reads the rollup where it may and all rows of
-- the window otherwise. `none` is MaxRowsExceededError or, from the aggregation itself, ValueError.
pub mod Same
use sqtseries.Prelude.{
  ℕ, zero, suc, ◌+◌, ◌-◌, ◌*◌, ◌/◌, ◌%◌, ◌^◌, ◌≤◌, ◌<◌, min, max, String, ◌≡◌, refl, sym, ap, ◌∙◌,
  ◌≢◌, ◌↔◌, ◌⊎◌, inl, inr, Bool, true, false, ◌&&◌, ◌||◌, not, Option, none, some, List, [], ◌∷◌,
  ◌++◌, map, arith, ltb, leb, ◌==◌, if◌then◌else◌, ltb→lt, lt→ltb, leb→le, ==_iff, Bool-cases,
  Option-cases, Eq, eq_of_discrete, string_discrete, pair_eq, option_eq, nat_eq, string_eq, length,
  take, drop, keep, length-append, length-take, length-drop, length-keep-le, All, All-append,
}
use sqtseries.Prelude.Text.{Text}
use sqtseries.Dict.{lookup}
use sqtseries.Partials.{Values, Partial}
use sqtseries.Rollup.{Db}
use sqtseries.Scan.{asc, count_in_range}
use sqtseries.Query.{BucketKey, bucket_eq, fetch, over_cap, rollup_eligible, rollup_window_partials}
use sqtseries.Query.Downsample.{bucket_value}
use sqtseries.Agg.{
  Floats, AggregationFunction, avg, sum, minimum, maximum, count, first, last, median, p95, p99,
  aggregate_series,
}

-- `ROLLUP_FUNCS`
abbrev pub is_rollup : AggregationFunction → Bool
is_rollup avg = true
is_rollup sum = true
is_rollup minimum = true
is_rollup maximum = true
is_rollup count = true
is_rollup _ = false

-- the value of the enumeration
abbrev pub name_of : AggregationFunction → Text
name_of avg = 97 ∷ 118 ∷ 103 ∷ []
name_of sum = 115 ∷ 117 ∷ 109 ∷ []
name_of minimum = 109 ∷ 105 ∷ 110 ∷ []
name_of maximum = 109 ∷ 97 ∷ 120 ∷ []
name_of count = 99 ∷ 111 ∷ 117 ∷ 110 ∷ 116 ∷ []
name_of first = 102 ∷ 105 ∷ 114 ∷ 115 ∷ 116 ∷ []
name_of last = 108 ∷ 97 ∷ 115 ∷ 116 ∷ []
name_of median = 109 ∷ 101 ∷ 100 ∷ 105 ∷ 97 ∷ 110 ∷ []
name_of p95 = 112 ∷ 57 ∷ 53 ∷ []
name_of p99 = 112 ∷ 57 ∷ 57 ∷ []

module _ {V : Type 0} (A : Values V) (F : Floats V) where
  -- the value of a whole window from its merged partials
  unfoldable pub whole_window_value : AggregationFunction → List (BucketKey × Partial V) → Option V
  unfolding lookup bucket_value aggregate_series
  whole_window_value f merged = elim (lookup none merged) [
    | none ↦ aggregate_series F (name_of f) []
    | some p ↦ some (bucket_value A F f p)
  ]

  unfoldable pub rollup_whole_window :
      ℕ → ℕ → Db V → List ℕ → Option ℕ → Option ℕ → AggregationFunction → Option V
  unfolding whole_window_value rollup_window_partials aggregate_series
  rollup_whole_window max_rows now db [] start end f = aggregate_series F (name_of f) []
  rollup_whole_window max_rows now db (s ∷ sids) start end f =
      elim (rollup_window_partials A max_rows now db (s ∷ sids) start end none) [
        | none ↦ none
        | some merged ↦ whole_window_value f merged
      ]

  -- the rows are counted before they are read
  unfoldable pub raw_whole_window :
      ℕ → Db V → List ℕ → Option ℕ → Option ℕ → AggregationFunction → Option V
  unfolding fetch count_in_range aggregate_series
  raw_whole_window max_rows db sids start end f =
      if over_cap max_rows (count_in_range sids start end db)
      then none
      else elim (fetch max_rows db sids start end asc none) [
        | none ↦ none
        | some rows ↦ aggregate_series F (name_of f) rows
      ]

  -- the clock is read at the test, and again in `_rollup_window_partials`
  unfoldable pub aggregate_one :
      ℕ → ℕ → ℕ → Db V → List ℕ → Option ℕ → Option ℕ → AggregationFunction → Option V
  unfolding rollup_whole_window raw_whole_window rollup_eligible
  aggregate_one max_rows checked now db sids start end f =
      if is_rollup f && rollup_eligible checked db start end none
      then rollup_whole_window max_rows now db sids start end f
      else raw_whole_window max_rows db sids start end f
