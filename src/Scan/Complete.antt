-- ===== src/Scan/Complete.antt =====
-- engine/store.py: the partitions that a range read visits, against all rows of the tables.
use sqtseries.Prelude.{length-map}
use sqtseries.Rollup.Ingest.{IsPlaced-rows_of}
use sqtseries.Prelude.{
  ℕ, ◌<◌, ◌≡◌, refl, sym, ap, ◌∙◌, inl, inr, false, ◌&&◌, Option, none, some, List, [], ◌∷◌, map,
  arith, leb, ◌==◌, if◌then◌else◌, Bool-cases, nat_eq, string_eq, length, All,
}
use sqtseries.Prelude.Sorted.{sorted}
use sqtseries.Dict.{lookup, IsDict}
use sqtseries.Schema.{month_partition_key}
use sqtseries.Schema.Months.{month_partition_key_bounds}
use sqtseries.Partials.Gather.{
  Combining, join, gather, gather-append, gather-map, gather-keep, gather-sorted, gather-all,
}
use sqtseries.Rollup.{Row, Db, names}
use sqtseries.Rollup.Writes.{rows_of}
use sqtseries.Rollup.Sound.{IsPlaced, rows_in}
use sqtseries.Scan.{asc, overlaps, is_falsy, partitions_for_range, query_time_range, scan}
use sqtseries.Scan.Gathered.{chosen, partition_sum, gather-scan, scan_short}

module _ {V P : Type 0} (C : Combining P) (g : ℕ × V → Option P) (sids : List ℕ)
    (start end : Option ℕ) where
  fresh_names :
      (j : ℕ) (parts : List (ℕ × List (Row V)))
      → lookup j parts ≡ none
      → All (λ m. (j == m) ≡ false) (names parts)
  unfolding lookup
  fresh_names j [] h = tt
  fresh_names j ((m, rows) ∷ parts) h = (ground arith, fresh_names j parts (ground arith))

  sum_later :
      (j : ℕ) (first : List (Row V)) (parts : List (ℕ × List (Row V))) (ms : List ℕ)
      → All (λ m. (j == m) ≡ false) ms
      → gather C (partition_sum C g sids start end ((j, first) ∷ parts)) ms
        ≡ gather C (partition_sum C g sids start end parts) ms
  unfolding partition_sum lookup
  sum_later j first parts [] h = refl
  sum_later j first parts (m ∷ ms) h = rw h.0 (ap (join C _) (sum_later j first parts ms h.1))

  -- Each partition is visited once.
  sum_names :
      (parts : List (ℕ × List (Row V)))
      → IsDict parts
      → gather C (partition_sum C g sids start end parts) (names parts)
        ≡ gather C (chosen C g sids start end) (rows_in parts)
  unfolding lookup
  sum_names [] u = refl
  sum_names ((j, first) ∷ parts) u =
      let here : partition_sum C g sids start end ((j, first) ∷ parts) j
          ≡ gather C (chosen C g sids start end) first =
        unfold partition_sum lookup rows_of in ground arith in
      cc (
        here,
        sum_later j first parts (names parts) (fresh_names j parts u.0),
        sum_names parts u.1,
        gather-append C (chosen C g sids start end) first (rows_in parts),
      )

  outside_row :
      (m : ℕ) (r : Row V)
      → month_partition_key r.ts ≡ m
      → overlaps start end m ≡ false
      → chosen C g sids start end r ≡ none
  outside_row m r p q = ground (arith, month_partition_key_bounds r.ts, p)

  outside_rows :
      (m : ℕ) (rows : List (Row V))
      → All (λ r. month_partition_key r.ts ≡ m) rows
      → overlaps start end m ≡ false
      → gather C (chosen C g sids start end) rows ≡ none
  outside_rows m [] p q = refl
  outside_rows m (r ∷ rows) p q = rw (outside_row m r p.0 q) (outside_rows m rows p.1 q)

  -- a partition that is not visited contributes nothing
  partition_outside :
      (parts : List (ℕ × List (Row V))) (m : ℕ)
      → All IsPlaced parts
      → partition_sum C g sids start end parts m
        ≡ (if overlaps start end m then partition_sum C g sids start end parts m else none)
  unfolding partition_sum
  partition_outside parts m p = elim (Bool-cases (overlaps start end m)) [
    | inl visited ↦ rw visited
    | inr outside ↦
        rw outside (outside_rows m (rows_of (lookup m parts)) (IsPlaced-rows_of m parts p) outside)
  ]

  range_sum :
      (db : Db V)
      → All IsPlaced db.partitions
      → gather C
          (partition_sum C g sids start end db.partitions)
          (partitions_for_range db start end)
        ≡ gather C (partition_sum C g sids start end db.partitions) (names db.partitions)
  unfolding partitions_for_range
  range_sum db p =
      let sum = partition_sum C g sids start end db.partitions in
      elim (Bool-cases (is_falsy start && is_falsy end)) [
        | inl all ↦ rw all (gather-sorted C sum leb (names db.partitions))
        | inr some_of ↦ rw some_of (
            gather-keep C sum (overlaps start end) (sorted leb (names db.partitions))
            ∙ sym (
                gather-all C sum _ (sorted leb (names db.partitions))
                  (λ m. partition_outside db.partitions m p))
            ∙ gather-sorted C sum leb (names db.partitions))
      ]

  -- Reading a range, oldest partition first and with no limit, gives what every selected row of the
  -- tables gives, whatever is computed from the rows in no particular order.
  pub query-All :
      (db : Db V)
      → IsDict db.partitions
      → All IsPlaced db.partitions
      → gather C g (query_time_range sids start end none asc db)
        ≡ gather C (chosen C g sids start end) (rows_in db.partitions)
  unfolding query_time_range
  query-All db u p =
      gather-map C g (λ (r : Row V). (r.ts, r.value))
        (scan sids start end asc (partitions_for_range db start end) none db)
      ∙ gather-scan C g sids start end asc (partitions_for_range db start end) db
      ∙ range_sum db p
      ∙ sum_names db.partitions u

  -- Where the partitions are distinct and each row is in the partition of its month: whatever is
  -- computed from rows in no particular order, a read upwards with a limit `n` that gives fewer than
  -- `n` rows gives the result of all selected rows of the tables, each of them once.
  pub query_time_range_complete :
      (db : Db V) (n : ℕ)
      → IsDict db.partitions
      → All IsPlaced db.partitions
      → length (query_time_range sids start end (some n) asc db) < n
      → gather C g (query_time_range sids start end (some n) asc db)
        ≡ gather C (chosen C g sids start end) (rows_in db.partitions)
  unfolding query_time_range
  query_time_range_complete db n u p h =
      let ms = partitions_for_range db start end in
      let same = scan_short sids start end asc db ms n (
        rw
          (length-map {B = ℕ × V} (scan sids start end asc ms (some n) db)
            (λ (r : Row V). (r.ts, r.value)))
          at h) in
      ap (λ rows. gather C g (map (λ (r : Row V). (r.ts, r.value)) rows)) same ∙ query-All db u p
