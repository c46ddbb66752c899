-- ===== src/Query/Downsample/Exact.antt =====
-- query/builder.py and engine/store.py: the buckets of the database against the rows of the raw path.
use sqtseries.Prelude.{
  ℕ, ◌/◌, ◌≡◌, sym, ap, ◌∙◌, Option, none, some, List, [], ◌∷◌, map, ◌==◌, if◌then◌else◌, nat_eq,
  string_eq, keep,
}
use sqtseries.Dict.{lookup}
use sqtseries.Partials.{Values, Partial, single, partials}
use sqtseries.Partials.Gather.{
  gather, gather-map, gather-append, gather-sorted, join, join-none, join_assoc,
}
use sqtseries.Partials.Tables.{merge, at_key, lookup-merge, gather-merge}
use sqtseries.Rollup.{Row, Db}
use sqtseries.Rollup.Writes.{rows_of}
use sqtseries.Scan.{
  asc, selected, partitions_for_range, select_rows, row_le, scan, query_time_range,
}
use sqtseries.Query.Downsample.{partition_buckets, merge_partitions, downsample_sqlite}

module _ {V : Type 0} (A : Values V) (bucket_ns b : ℕ) where
  -- what a sample contributes to the bucket
  abbrev pub in_bucket : ℕ × V → Option (Partial V)
  in_bucket x = if x.0 / bucket_ns == b then some (single x.1) else none

  abbrev row_in_bucket : Row V → Option (Partial V)
  row_in_bucket r = in_bucket (r.ts, r.value)

  gather-partition_buckets :
      (sids : List ℕ) (start end : Option ℕ) (m : ℕ) (db : Db V)
      → gather
          (partials A)
          (at_key (partials A) b)
          (partition_buckets A sids start end bucket_ns m db)
        ≡ gather (partials A) row_in_bucket (select_rows sids start end asc m db)
  unfolding partition_buckets select_rows
  gather-partition_buckets sids start end m db =
      let rows = keep (selected sids start end) (rows_of (lookup m db.partitions)) in
      let C = partials A in
      gather-merge C (λ k. k == b) [] (map (λ (r : Row V). (r.ts / bucket_ns, single r.value)) rows)
        tt
      ∙ gather-map C (at_key C b) (λ (r : Row V). (r.ts / bucket_ns, single r.value)) rows
      ∙ sym (gather-sorted C row_in_bucket (row_le asc) rows)

  lookup-merge_partitions :
      (sids : List ℕ) (start end : Option ℕ) (ms : List ℕ) (db : Db V) (out : List (ℕ × Partial V))
      → lookup b (merge_partitions A sids start end bucket_ns ms db out)
        ≡ join
            (partials A)
            (lookup b out)
            (gather (partials A) row_in_bucket (scan sids start end asc ms none db))
  unfolding merge_partitions scan
  lookup-merge_partitions sids start end [] db out = sym (join-none (partials A) (lookup b out))
  lookup-merge_partitions sids start end (m ∷ ms) db out =
      let C = partials A in
      let parts = partition_buckets A sids start end bucket_ns m db in
      let here = select_rows sids start end asc m db in
      let later = scan sids start end asc ms none db in
      lookup-merge_partitions sids start end ms db (merge C out parts)
      ∙ ap (λ x. join C x (gather C row_in_bucket later))
          (lookup-merge C b out parts
            ∙ ap (join C (lookup b out)) (gather-partition_buckets sids start end m db))
      ∙ join_assoc C (lookup b out) (gather C row_in_bucket here) (gather C row_in_bucket later)
      ∙ ap (join C (lookup b out)) (sym (gather-append C row_in_bucket here later))

  -- The count, sum, minimum and maximum that the database gives for a bucket are those of the rows of
  -- the window that the raw path reads and that lie in it, and there is no entry where it reads none.
  pub downsample_sqlite_exact :
      (s : ℕ) (sids : List ℕ) (start end : Option ℕ) (db : Db V)
      → lookup b (downsample_sqlite A (s ∷ sids) start end bucket_ns db)
        ≡ gather (partials A) in_bucket (query_time_range (s ∷ sids) start end none asc db)
  unfolding downsample_sqlite query_time_range
  downsample_sqlite_exact s sids start end db =
      lookup-merge_partitions (s ∷ sids) start end (partitions_for_range db start end) db []
      ∙ sym (
          gather-map (partials A) in_bucket (λ (r : Row V). (r.ts, r.value))
            (scan (s ∷ sids) start end asc (partitions_for_range db start end) none db))
