-- ===== src/Query/Window.antt =====
-- query/builder.py: the answer of the fast path, against all rows of the window.
use mathlib.Core.Path.{ap₂}
use sqtseries.Prelude.{
  ℕ, ◌+◌, ◌-◌, ◌≤◌, ◌≡◌, sym, ap, ◌∙◌, Bool, true, ◌&&◌, Option, none, some, List, [], map, arith,
  if◌then◌else◌, nat_eq, string_eq, keep,
}
use sqtseries.Prelude.Sorted.{has}
use sqtseries.Dict.{lookup}
use sqtseries.Schema.{hour_ns}
use sqtseries.Partials.{Values, Partial, single, partials}
use sqtseries.Partials.Gather.{gather, gather-map, gather-keep, gather-all, gather-join, join}
use sqtseries.Partials.Tables.{merge, at_key, lookup-merge, gather-merge, at_keys, gather-table}
use sqtseries.Rollup.{Row, Db, HourKey, hour_key_eq, hour_of, hour_part, rollup_watermark}
use sqtseries.Rollup.Sound.{IsSound, rows_in}
use sqtseries.Scan.Gathered.{chosen}
use sqtseries.Query.{
  BucketKey, bucket_eq, bucket_of, start_or_zero, eff_end, bucket_partials, rolled,
  query_rollup_partial, merge_partials, rollup_window_partials, rollup_eligible,
}
use sqtseries.Query.Buckets.{at_bucket, gather-bucket_partials}
use sqtseries.Query.Edges.{
  IsWide, eligible-IsWide, merged_parts, fetch_complete, split, bucket_of-hour,
}

module _ {V : Type 0} (A : Values V) (db : Db V) (sids : List ℕ) (first stop : ℕ)
    (bucket : Option ℕ) (b : BucketKey) where
  -- what a row contributes to the hours between
  abbrev between : Row V → Option (Partial V)
  between r =
      if rolled A sids first stop (r.sid, hour_of r.ts)
      then (if bucket_eq.beq (bucket_of bucket (hour_of r.ts)) b
          then some (single r.value)
          else none)
      else none

  -- the hours that count towards the bucket
  abbrev counted : HourKey → Bool
  counted k = rolled A sids first stop k && bucket_eq.beq (bucket_of bucket k.1) b

  -- The rollup's part of a window below the watermark is that of the rows.
  middle_exact :
      IsSound A db
      → stop ≤ rollup_watermark db
      → gather
          (partials A)
          (at_key (partials A) b)
          (query_rollup_partial A sids first stop bucket db)
        ≡ gather (partials A) between (rows_in db.partitions)
  unfolding query_rollup_partial
  middle_exact sound below =
      let C = partials A in
      let rows : List (Row V) = rows_in db.partitions in
      let inside = λ (x : HourKey × Partial V). rolled A sids first stop x.0 in
      let as_bucket : HourKey × Partial V → BucketKey × Partial V =
        λ x. (bucket_of bucket x.0.1, x.1) in
      gather-merge C (λ k. bucket_eq.beq k b) [] (map as_bucket (keep inside db.rollup)) tt
      ∙ gather-map C (at_key C b) as_bucket (keep inside db.rollup)
      ∙ gather-keep C (λ x. at_key C b (as_bucket x)) inside db.rollup
      ∙ gather-all C _ (at_keys C counted) db.rollup (λ x. ground arith)
      ∙ gather-table C counted db.rollup (map (hour_part A) rows) sound.hours (λ k t.
        sound.exact k.0 k.1 (ground arith) ∙ sym (gather-map C (at_key C k) (hour_part A) rows))
      ∙ gather-map C (at_keys C counted) (hour_part A) rows
      ∙ gather-all C _ between rows (λ r. ground arith)

module _ {V : Type 0} (A : Values V) (max_rows now : ℕ) (db : Db V) (sids : List ℕ)
    (start end bucket : Option ℕ) where
  -- what the three parts say of one row is what the window says of it
  row_split :
      (b : BucketKey) (r : Row V)
      → IsWide A max_rows now db sids start end bucket
      → chosen (partials A) (at_bucket A bucket b) sids start (some (eff_end now end)) r
        ≡ join
            (partials A)
            (join
              (partials A)
              (chosen
                (partials A)
                (at_bucket A bucket b)
                sids
                start
                (some (hour_of (start_or_zero start) + hour_ns - 1))
                r)
              (chosen
                (partials A)
                (at_bucket A bucket b)
                sids
                (some (hour_of (eff_end now end)))
                (some (eff_end now end))
                r))
            (between A db sids
              (hour_of (start_or_zero start) + hour_ns)
              (hour_of (eff_end now end))
              bucket
              b
              r)
  row_split b r w = rw (bucket_of-hour bucket r.ts w.hours) (
      split (partials A) (at_bucket A bucket b (r.ts, r.value)) (has r.sid sids) start
        (eff_end now end) r.ts w.wide)

  -- what the test found at its reading of the clock holds at that of the read, in the same hour
  still-IsWide :
      (checked : ℕ)
      → hour_of (eff_end now end) ≡ hour_of (eff_end checked end)
      → IsWide A max_rows checked db sids start end bucket
      → IsWide A max_rows now db sids start end bucket
  still-IsWide checked same_hour w = record {
    wide = omega (arith, w.wide, same_hour);
    below = omega (arith, w.below, same_hour);
    hours = w.hours;
  }

  -- From sound tables, an eligible query that does not raise gives every bucket exactly the partial
  -- aggregate of all stored rows of its series in the window, first and last timestamp included:
  -- none is left out and none is counted twice. A bucket without rows has no entry. The clock is
  -- read at the test and again for the read: where the window has no end, both readings must be of
  -- one hour.
  pub rollup_window_exact :
      (checked : ℕ) (merged : List (BucketKey × Partial V)) (b : BucketKey)
      → IsSound A db
      → rollup_eligible checked db start end bucket ≡ true
      → hour_of (eff_end now end) ≡ hour_of (eff_end checked end)
      → rollup_window_partials A max_rows now db sids start end bucket ≡ some merged
      → lookup b merged
        ≡ gather
            (partials A)
            (chosen (partials A) (at_bucket A bucket b) sids start (some (eff_end now end)))
            (rows_in db.partitions)
  unfolding lookup merge_partials
  rollup_window_exact checked merged b sound eligible same_hour e =
      let w =
        still-IsWide checked same_hour
          (eligible-IsWide A max_rows checked db sids start end bucket eligible) in
      let C = partials A in
      let first : ℕ = hour_of (start_or_zero start) + hour_ns in
      let stop : ℕ = hour_of (eff_end now end) in
      let (left, right, read_left, read_right, same) =
        merged_parts A max_rows now db sids start end bucket merged w e in
      let g = at_bucket A bucket b in
      let rows : List (Row V) = rows_in db.partitions in
      let lp = bucket_partials A bucket left in
      let rp = bucket_partials A bucket right in
      let mp = query_rollup_partial A sids first stop bucket db in
      ap (lookup b) same
      ∙ lookup-merge C b (merge C (merge C [] lp) rp) mp
      ∙ ap₂ (join C)
          (lookup-merge C b (merge C [] lp) rp
            ∙ ap₂ (join C)
                (lookup-merge C b [] lp
                  ∙ gather-bucket_partials A bucket b left
                  ∙ fetch_complete C g max_rows db sids start
                      (some (hour_of (start_or_zero start) + hour_ns - 1)) left sound.months
                      sound.placed read_left)
                (gather-bucket_partials A bucket b right
                  ∙ fetch_complete C g max_rows db sids (some stop) (some (eff_end now end)) right
                      sound.months sound.placed read_right))
          (middle_exact A db sids first stop bucket b sound w.below)
      ∙ ap (λ x. join C x (gather C (between A db sids first stop bucket b) rows))
          (sym (gather-join C _ _ rows))
      ∙ sym (gather-join C _ _ rows)
      ∙ sym (gather-all C _ _ rows (λ r. row_split b r w))
