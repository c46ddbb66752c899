-- ===== src/Query/Edges.antt =====
-- The parts of the fast path: the two raw edges of an eligible window, each read to the end.
use sqtseries.Partials.Gather.{gather-if}
use sqtseries.Prelude.{
  ℕ, zero, suc, ◌+◌, ◌-◌, ◌*◌, ◌/◌, ◌%◌, ◌≤◌, min, ◌≡◌, refl, sym, ap, ◌∙◌, inl, inr, Bool, true,
  false, ◌&&◌, Option, none, some, List, [], ◌∷◌, arith, ltb, leb, ◌==◌, if◌then◌else◌,
  Option-cases, nat_eq, string_eq, All,
}
use sqtseries.Dict.{IsDict}
use sqtseries.Schema.{hour_ns}
use sqtseries.Partials.{Values, Partial}
use sqtseries.Partials.Gather.{Combining, gather, join}
use sqtseries.Rollup.{Row, Db, hour_key_eq, hour_of, rollup_watermark}
use sqtseries.Rollup.Sound.{IsPlaced, rows_in}
use sqtseries.Scan.{asc, query_time_range, not_before}
use sqtseries.Scan.Gathered.{chosen}
use sqtseries.Scan.Complete.{query-All, query_time_range_complete}
use sqtseries.Query.{
  BucketKey, bucket_eq, bucket_of, start_or_zero, eff_end, fetch, bucket_partials,
  query_rollup_partial, merge_partials, left_edge, right_edge, middle, rollup_window_partials,
  rollup_eligible,
}
use sqtseries.Query.Buckets.{bucket-hour}

-- A fetch that does not raise has every selected row.
pub fetch_complete :
    {V P : Type 0} (C : Combining P) (g : ℕ × V → Option P) (max_rows : ℕ) (db : Db V)
    (sids : List ℕ) (start end : Option ℕ) (rows : List (ℕ × V))
    → IsDict db.partitions
    → All IsPlaced db.partitions
    → fetch max_rows db sids start end asc none ≡ some rows
    → gather C g rows ≡ gather C (chosen C g sids start end) (rows_in db.partitions)
unfolding fetch
fetch_complete {V} C g max_rows db [] start end rows u p e =
    let nothing : [] ≡ rows = ground arith in
    ap (gather C g) (sym nothing)
    ∙ sym (gather-if C false (λ (r : Row V). g (r.ts, r.value)) (rows_in db.partitions))
fetch_complete C g zero db (s ∷ sids) start end rows u p e =
    let read : query_time_range (s ∷ sids) start end none asc db ≡ rows = ground arith in
    ap (gather C g) (sym read) ∙ query-All C g (s ∷ sids) start end db u p
fetch_complete C g (suc cap) db (s ∷ sids) start end rows u p e =
    let all = query_time_range (s ∷ sids) start end (some (suc (suc cap))) asc db in
    let read : all ≡ rows = ground arith in
    ap (gather C g) (sym read)
    ∙ query_time_range_complete C g (s ∷ sids) start end db (suc (suc cap)) u p (ground arith)

-- A row of the window lies in the first hour, in the last, or in the hours between.
pub split :
    {P : Type 0} (C : Combining P) (x : Option P) (mine : Bool) (start : Option ℕ) (stop ts : ℕ)
    → hour_of (start_or_zero start) + 2 * hour_ns ≤ hour_of stop
    → (if mine && (not_before start ts && leb ts stop) then x else none)
      ≡ join C
          (join C
            (if mine
                && (not_before start ts && leb ts (hour_of (start_or_zero start) + hour_ns - 1))
              then x
              else none)
            (if mine && (leb (hour_of stop) ts && leb ts stop) then x else none))
          (if mine
              && (leb (hour_of (start_or_zero start) + hour_ns) (hour_of ts)
                  && ltb (hour_of ts) (hour_of stop))
            then x
            else none)
split C x false start stop ts wide = refl
split C none true start stop ts wide = ground arith
split C (some x) true none stop ts wide = ground arith
split C (some x) true (some s) stop ts wide = ground arith

pub bucket_of-hour :
    (bucket : Option ℕ) (ts : ℕ)
    → elim bucket as (λ _. Bool) [ none ↦ true | some n ↦ n % hour_ns == 0 ] ≡ true
    → bucket_of bucket (hour_of ts) ≡ bucket_of bucket ts
bucket_of-hour none ts h = refl
bucket_of-hour (some n) ts h =
    let k : ℕ = n / hour_ns in
    let whole_hours : n ≡ hour_ns * k = ground arith in
    rw whole_hours (ap (λ q. some (q * (hour_ns * k))) (bucket-hour k ts (omega arith)))

module _ {V : Type 0} (A : Values V) (max_rows now : ℕ) (db : Db V) (sids : List ℕ)
    (start end bucket : Option ℕ) where
  -- what an eligible window is
  pub record IsWide : Type 0 where
    pub wide : hour_of (start_or_zero start) + 2 * hour_ns ≤ hour_of (eff_end now end)
    pub below : hour_of (eff_end now end) ≤ rollup_watermark db
    pub hours : elim bucket as (λ _. Bool) [ none ↦ true | some n ↦ n % hour_ns == 0 ] ≡ true

  pub eligible-IsWide : rollup_eligible now db start end bucket ≡ true → IsWide
  unfolding rollup_eligible
  eligible-IsWide h = record { wide = ground arith; below = ground arith; hours = ground arith }

  left_edge_read :
      IsWide
      → left_edge A max_rows now db sids start end bucket
        ≡ fetch max_rows db sids start (some (hour_of (start_or_zero start) + hour_ns - 1)) asc none
  unfolding left_edge
  left_edge_read w =
      let low : leb (start_or_zero start) (hour_of (start_or_zero start) + hour_ns - 1) ≡ true =
        ground arith in
      let same : min (hour_of (start_or_zero start) + hour_ns - 1) (eff_end now end)
          ≡ hour_of (start_or_zero start) + hour_ns - 1 =
        omega (arith, w.wide) in
      rw (same, low)

  right_edge_read :
      IsWide
      → right_edge A max_rows now db sids start end bucket
        ≡ fetch max_rows db sids
            (some (hour_of (eff_end now end)))
            (some (eff_end now end))
            asc
            none
  unfolding right_edge
  right_edge_read w =
      let test : (ltb (hour_of (start_or_zero start)) (hour_of (eff_end now end))
            && leb (hour_of (eff_end now end)) (eff_end now end))
          ≡ true =
        ground arith in
      rw test

  middle_read :
      IsWide
      → middle A max_rows now db sids start end bucket
        ≡ query_rollup_partial A sids
            (hour_of (start_or_zero start) + hour_ns)
            (hour_of (eff_end now end))
            bucket
            db
  unfolding middle
  middle_read w =
      let test : leb (hour_of (start_or_zero start) + 2 * hour_ns) (hour_of (eff_end now end))
          ≡ true =
        ground arith in
      rw test

  pub merged_parts :
      (merged : List (BucketKey × Partial V))
      → IsWide
      → rollup_window_partials A max_rows now db sids start end bucket ≡ some merged
      → (left : List (ℕ × V)) × (right : List (ℕ × V)) × (fetch max_rows db sids start
            (some (hour_of (start_or_zero start) + hour_ns - 1))
            asc
            none
          ≡ some left)
        × (fetch max_rows db sids
              (some (hour_of (eff_end now end)))
              (some (eff_end now end))
              asc
              none
            ≡ some right)
        × (merged
            ≡ merge_partials A (bucket_partials A bucket left) (bucket_partials A bucket right) (
                query_rollup_partial A sids
                  (hour_of (start_or_zero start) + hour_ns)
                  (hour_of (eff_end now end))
                  bucket
                  db))
  unfolding rollup_window_partials
  merged_parts merged w e =
      elim (Option-cases (left_edge A max_rows now db sids start end bucket)) [
        | inl failed ↦ absurd (ground (arith, failed))
        | inr (left, read_left) ↦
            elim (Option-cases (right_edge A max_rows now db sids start end bucket)) [
              | inl failed ↦ absurd (ground (arith, read_left, failed))
              | inr (right, read_right) ↦ (
                left,
                right,
                sym (left_edge_read w) ∙ read_left,
                sym (right_edge_read w) ∙ read_right,
                ground (arith, read_left, read_right, middle_read w),
              )
            ]
      ]
