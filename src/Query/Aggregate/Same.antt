-- ===== src/Query/Aggregate/Same.antt =====
-- query/builder.py: the aggregate of a window from the rollup, and that of its rows.
use sqtseries.Prelude.{
  ℕ, suc, ◌+◌, ◌≡◌, refl, sym, ap, ◌∙◌, true, Option, none, some, List, [], ◌∷◌, map, arith,
  if◌then◌else◌, nat_eq, string_eq, length,
}
use sqtseries.Prelude.Text.{text_eq}
use mathlib.Core.Path.{ap₂}
use sqtseries.Dict.{lookup}
use sqtseries.Partials.{Values, Partial, single, partials}
use sqtseries.Partials.Gather.{gather}
use sqtseries.Rollup.{Db}
use sqtseries.Rollup.Sound.{IsSound}
use sqtseries.Scan.{asc}
use sqtseries.Query.{BucketKey, bucket_eq, fetch, whole, rollup_eligible, rollup_window_partials}
use sqtseries.Query.Buckets.{at_bucket, whole_lem}
use sqtseries.Query.Edges.{fetch_complete}
use sqtseries.Query.Window.{rollup_window_exact}
use sqtseries.Query.Downsample.{bucket_value}
use sqtseries.Query.Aggregate.{is_rollup, name_of, whole_window_value}
use sqtseries.Agg.{
  Floats, AggregationFunction, avg, sum, minimum, maximum, count, first, last, median, p95, p99,
  aggregate_series, aggregate, sum_values, least_value, greatest_value,
}

-- The database's arithmetic and Python's are the same on these values.
pub record Agrees {V : Type 0} (A : Values V) (F : Floats V) : Type 0 where
  pub add : (v w : V) → F.add v w ≡ A.add v w
  pub least : (v w : V) → (if F.le v w then v else w) ≡ A.minimum v w
  pub greatest : (v w : V) → (if F.le w v then v else w) ≡ A.maximum v w

module _ {V : Type 0} (A : Values V) (F : Floats V) (same : Agrees A F) where
  abbrev values : List (ℕ × V) → List V
  values = map (λ x. x.1)

  whole-count :
      (p : Partial V) (rows : List (ℕ × V))
      → (whole A p rows).count ≡ p.count + length (values rows)
  unfolding whole partials
  whole-count p [] = omega arith
  whole-count p (x ∷ rows) = omega (arith, whole-count ((partials A).combine p (single x.1)) rows)

  whole-sum :
      (p : Partial V) (rows : List (ℕ × V))
      → (whole A p rows).sum ≡ sum_values F p.sum (values rows)
  unfolding whole partials sum_values
  whole-sum p [] = refl
  whole-sum p (x ∷ rows) =
      whole-sum ((partials A).combine p (single x.1)) rows
      ∙ ap (λ v. sum_values F v (values rows)) (sym (same.add p.sum x.1))

  whole-lowest :
      (p : Partial V) (rows : List (ℕ × V))
      → (whole A p rows).lowest ≡ least_value F p.lowest (values rows)
  unfolding whole partials least_value
  whole-lowest p [] = refl
  whole-lowest p (x ∷ rows) =
      whole-lowest ((partials A).combine p (single x.1)) rows
      ∙ ap (λ v. least_value F v (values rows)) (sym (same.least p.lowest x.1))

  whole-highest :
      (p : Partial V) (rows : List (ℕ × V))
      → (whole A p rows).highest ≡ greatest_value F p.highest (values rows)
  unfolding whole partials greatest_value
  whole-highest p [] = refl
  whole-highest p (x ∷ rows) =
      whole-highest ((partials A).combine p (single x.1)) rows
      ∙ ap (λ v. greatest_value F v (values rows)) (sym (same.greatest p.highest x.1))

  value-whole :
      (f : AggregationFunction) (v : V) (rows : List (ℕ × V))
      → is_rollup f ≡ true
      → bucket_value A F f (whole A (single v) rows) ≡ aggregate F f v (values rows)
  unfolding bucket_value aggregate
  value-whole avg v rows r =
      let n : (whole A (single v) rows).count ≡ suc (length (values rows)) =
        omega (arith, whole-count (single v) rows) in
      ap₂ F.over (whole-sum (single v) rows) n
  value-whole sum v rows r = whole-sum (single v) rows
  value-whole minimum v rows r = whole-lowest (single v) rows
  value-whole maximum v rows r = whole-highest (single v) rows
  value-whole count v rows r = ap F.of_count (omega (arith, whole-count (single v) rows))
  value-whole first v rows r = cc
  value-whole last v rows r = cc
  value-whole median v rows r = cc
  value-whole p95 v rows r = cc
  value-whole p99 v rows r = cc

  aggregate_series-name_of :
      (f : AggregationFunction) (x : ℕ × V) (rows : List (ℕ × V))
      → is_rollup f ≡ true
      → aggregate_series F (name_of f) (x ∷ rows) ≡ some (aggregate F f x.1 (values rows))
  unfolding aggregate_series lookup
  aggregate_series-name_of avg x rows r = refl
  aggregate_series-name_of sum x rows r = refl
  aggregate_series-name_of minimum x rows r = refl
  aggregate_series-name_of maximum x rows r = refl
  aggregate_series-name_of count x rows r = refl
  aggregate_series-name_of first x rows r = cc
  aggregate_series-name_of last x rows r = cc
  aggregate_series-name_of median x rows r = cc
  aggregate_series-name_of p95 x rows r = cc
  aggregate_series-name_of p99 x rows r = cc

  whole_window_value-rows :
      (f : AggregationFunction) (merged : List (BucketKey × Partial V)) (rows : List (ℕ × V))
      → is_rollup f ≡ true
      → lookup none merged ≡ gather (partials A) (at_bucket A none none) rows
      → whole_window_value A F f merged ≡ aggregate_series F (name_of f) rows
  unfolding whole_window_value
  whole_window_value-rows f merged [] r e = rw (e, whole_window_value) refl
  whole_window_value-rows f merged (x ∷ rows) r e =
      let found : lookup none merged ≡ some (whole A (single x.1) rows) =
        e ∙ sym (whole_lem A (single x.1) rows) in
      rw (found, whole_window_value)
        (ap some (value-whole f x.1 rows r) ∙ sym (aggregate_series-name_of f x rows r))

  -- On sound tables, where the window has an end and the rollup may be read: if neither way meets the
  -- cap on rows, the aggregate that the rollup and the raw edges give, for each of the five functions
  -- that the rollup serves, is the one that Python computes from all rows of the window, and nothing
  -- is lost where there are none. The arithmetic of the database and of Python is taken to be the
  -- same and exact.
  pub whole_window_same :
      (max_rows now e : ℕ) (start : Option ℕ) (db : Db V) (sids : List ℕ)
      → (f : AggregationFunction) (merged : List (BucketKey × Partial V)) (rows : List (ℕ × V))
      → IsSound A db
      → is_rollup f ≡ true
      → rollup_eligible now db start (some e) none ≡ true
      → rollup_window_partials A max_rows now db sids start (some e) none ≡ some merged
      → fetch max_rows db sids start (some e) asc none ≡ some rows
      → whole_window_value A F f merged ≡ aggregate_series F (name_of f) rows
  whole_window_same max_rows now e start db sids f merged rows sound r eligible p q =
      whole_window_value-rows f merged rows r (
        rollup_window_exact A max_rows now db sids start (some e) none now merged none sound
          eligible refl p
        ∙ sym (
            fetch_complete (partials A) (at_bucket A none none) max_rows db sids start (some e) rows
              sound.months sound.placed q))
