-- ===== src/Rollup/Retire.antt =====
-- partition/retention.py: dropping a month with its hours of the rollup.
use sqtseries.Prelude.{
  ℕ, suc, ◌≡◌, refl, sym, ap, ◌∙◌, ◌≢◌, inl, inr, ◌&&◌, not, none, List, [], ◌∷◌, arith, ltb, leb,
  ◌==◌, if◌then◌else◌, Bool-cases, nat_eq, string_eq, All,
}
use sqtseries.Dict.{
  lookup, without, IsDict, without-IsDict, lookup-without, lookup-keep, keep-IsDict,
}
use sqtseries.Schema.{month_start_ns, month_partition_key}
use sqtseries.Schema.Months.{month_partition_key_bounds, month_partition_key_unique}
use sqtseries.Partials.{Values, Partial, partials}
use sqtseries.Partials.Gather.{gather, gather-append, join}
use sqtseries.Dict.{All-without}
use sqtseries.Rollup.{Row, Db, HourKey, hour_key_eq, rollup_watermark, delete_hours, month_bounds}
use sqtseries.Rollup.Sound.{rows_in, at_hour, IsPlaced, raw, IsSound}
use sqtseries.Rollup.Pass.{away, raw_elsewhere}
use sqtseries.Rollup.Writes.{drop_partition}

module _ {V : Type 0} (A : Values V) where
  in_month :
      (m h : ℕ)
      → (leb (month_start_ns m) h && ltb h (month_start_ns (suc m))) ≡ (month_partition_key h == m)
  in_month m h = ground (arith, month_partition_key_bounds h, month_partition_key_unique h m)

  raw-without :
      (m s h : ℕ) (parts : List (ℕ × List (Row V)))
      → All IsPlaced parts
      → month_partition_key h ≢ m
      → raw A (without m parts) s h ≡ raw A parts s h
  unfolding without
  raw-without m s h [] p q = refl
  raw-without m s h ((j, first) ∷ parts) p q = elim (Bool-cases (j == m)) [
    | inl gone ↦ rw gone (
        raw-without m s h parts p.1 q
        ∙ sym (
            gather-append (partials A) (at_hour s h) first (rows_in parts)
            ∙ ap (λ x. join (partials A) x (raw A parts s h))
                (away A s h j first p.0 (ground arith))))
    | inr kept ↦ rw kept (
        gather-append (partials A) (at_hour s h) first (rows_in (without m parts))
        ∙ ap (join (partials A) (gather (partials A) (at_hour s h) first))
            (raw-without m s h parts p.1 q)
        ∙ sym (gather-append (partials A) (at_hour s h) first (rows_in parts)))
  ]

  -- the partition of `h` is gone, or nothing has changed for `h`
  raw-drop :
      (m s h : ℕ) (parts : List (ℕ × List (Row V)))
      → All IsPlaced parts
      → raw A (without m parts) s h ≡ (if month_partition_key h == m then none else raw A parts s h)
  raw-drop m s h parts p = elim (Bool-cases (month_partition_key h == m)) [
    | inl gone ↦ rw gone (
        raw_elsewhere A s h (without m parts) (All-without IsPlaced m parts p)
          (ground (arith, lookup-without m (month_partition_key h) parts)))
    | inr kept ↦ rw kept (raw-without m s h parts p (ground arith))
  ]

  lookup-delete :
      (m s h : ℕ) (table : List (HourKey × Partial V))
      → lookup (s, h) (delete_hours (month_start_ns m) (month_start_ns (suc m)) table)
        ≡ (if month_partition_key h == m then none else lookup (s, h) table)
  unfolding delete_hours
  lookup-delete m s h table =
      lookup-keep
        (λ (k : HourKey). not (leb (month_start_ns m) k.1 && ltb k.1 (month_start_ns (suc m))))
        (s, h) table
      ∙ ground (arith, in_month m h)

  delete-IsDict :
      (m : ℕ) (table : List (HourKey × Partial V))
      → IsDict table
      → IsDict (delete_hours (month_start_ns m) (month_start_ns (suc m)) table)
  unfolding delete_hours
  delete-IsDict m table u =
      keep-IsDict
        (λ (k : HourKey). not (leb (month_start_ns m) k.1 && ltb k.1 (month_start_ns (suc m))))
        table u

  -- Dropping a partition, with its hours of the rollup, leaves sound tables.
  pub drop_partition-IsSound : (m : ℕ) (db : Db V) → IsSound A db → IsSound A (drop_partition m db)
  unfolding drop_partition month_bounds rollup_watermark
  drop_partition-IsSound m db sound = record {
    months = without-IsDict m db.partitions sound.months;
    hours = delete-IsDict m db.rollup sound.hours;
    placed = All-without IsPlaced m db.partitions sound.placed;
    on_hour = sound.on_hour;
    exact = λ s h below. ground (
      arith,
      lookup-delete m s h db.rollup,
      raw-drop m s h db.partitions sound.placed,
      sound.exact s h below,
    );
    backed = λ s h nothing. ground (
      arith,
      lookup-delete m s h db.rollup,
      raw-drop m s h db.partitions sound.placed,
      sound.backed s h,
    );
  }
