-- ===== src/Query/Downsample.antt =====
-- query/builder.py `_downsample_sql` with `downsample_sqlite` of engine/store.py: buckets that are
-- grouped by the database, one partition after the other. `none` is MaxRowsExceededError; the
-- interval is parsed by the caller.
pub mod Exact
use sqtseries.Prelude.{
  ℕ, zero, suc, ◌+◌, ◌-◌, ◌*◌, ◌/◌, ◌%◌, ◌^◌, ◌≤◌, ◌<◌, min, max, String, ◌≡◌, refl, sym, ap, ◌∙◌,
  ◌≢◌, ◌↔◌, ◌⊎◌, inl, inr, Bool, true, false, ◌&&◌, ◌||◌, not, Option, none, some, List, [], ◌∷◌,
  ◌++◌, map, arith, ltb, leb, ◌==◌, if◌then◌else◌, ltb→lt, lt→ltb, leb→le, ==_iff, Bool-cases,
  Option-cases, Eq, eq_of_discrete, string_discrete, pair_eq, option_eq, nat_eq, string_eq, length,
  take, drop, keep, length-append, length-take, length-drop, length-keep-le, All, All-append,
}
use sqtseries.Prelude.Sorted.{sorted}
use sqtseries.Dict.{lookup}
use sqtseries.Partials.{Values, Partial, single, partials}
use sqtseries.Partials.Tables.{merge}
use sqtseries.Rollup.{Row, Db}
use sqtseries.Rollup.Writes.{rows_of}
use sqtseries.Scan.{selected, partitions_for_range}
use sqtseries.Query.{over_cap}
use sqtseries.Agg.{Floats, AggregationFunction, avg, sum, minimum, maximum}

module _ {V : Type 0} (A : Values V) where
  -- the statement on one partition: `GROUP BY` the bucket of the timestamp
  unfoldable pub partition_buckets :
      List ℕ → Option ℕ → Option ℕ → ℕ → ℕ → Db V → List (ℕ × Partial V)
  unfolding merge lookup rows_of
  partition_buckets sids start end bucket_ns m db = merge (partials A) [] (
      map (λ (r : Row V). (r.ts / bucket_ns, single r.value))
        (keep (selected sids start end) (rows_of (lookup m db.partitions))))

  -- the loop over the partitions
  unfoldable pub merge_partitions :
      List ℕ → Option ℕ → Option ℕ → ℕ → List ℕ → Db V → List (ℕ × Partial V) → List (ℕ × Partial V)
  unfolding partition_buckets merge
  merge_partitions sids start end bucket_ns [] db out = out
  merge_partitions sids start end bucket_ns (m ∷ ms) db out =
      merge_partitions sids start end bucket_ns ms db
        (merge (partials A) out (partition_buckets sids start end bucket_ns m db))

  unfoldable pub downsample_sqlite : List ℕ → Option ℕ → Option ℕ → ℕ → Db V → List (ℕ × Partial V)
  unfolding merge_partitions partitions_for_range
  downsample_sqlite [] start end bucket_ns db = []
  downsample_sqlite (s ∷ sids) start end bucket_ns db =
      merge_partitions (s ∷ sids) start end bucket_ns (partitions_for_range db start end) db []

  module _ (F : Floats V) where
    -- the value of a bucket; any other function that is sent here is `count`
    unfoldable pub bucket_value : AggregationFunction → Partial V → V
    bucket_value avg p = F.over p.sum p.count
    bucket_value sum p = p.sum
    bucket_value minimum p = p.lowest
    bucket_value maximum p = p.highest
    bucket_value _ p = F.of_count p.count

    unfoldable pub downsample_sql :
        ℕ → AggregationFunction → List ℕ → Option ℕ → Option ℕ → ℕ → Db V → Option (List (ℕ × V))
    unfolding downsample_sqlite bucket_value sorted
    downsample_sql max_rows name sids start end bucket_ns db =
        let out = downsample_sqlite sids start end bucket_ns db in
        if over_cap max_rows (length out)
        then none
        else some (
            map (λ p. (p.0 * bucket_ns, bucket_value name p.1))
              (sorted (λ (p q : ℕ × Partial V). leb p.0 q.0) out))
