-- ===== src/Rollup/Sound.antt =====
-- partition/rollup.py: when the tables are sound. Every row lies in its partition, the watermark is on
-- the hour, and below it the rollup has exactly the aggregates of the rows.
use sqtseries.Prelude.{nat_eq}
use sqtseries.Rollup.{hour_key_eq}
use sqtseries.Prelude.{
  ℕ, ◌<◌, ◌≡◌, ◌&&◌, Option, none, some, List, [], ◌∷◌, ◌++◌, ◌==◌, if◌then◌else◌, nat_eq,
  string_eq, All,
}
use sqtseries.Dict.{lookup, IsDict}
use sqtseries.Schema.{month_partition_key}
use sqtseries.Partials.{Values, Partial, single, partials}
use sqtseries.Partials.Gather.{gather}
use sqtseries.Rollup.{Row, Db, hour_of, rollup_watermark}

-- all measurements, partition by partition
abbrev pub rows_in : {V : Type 0} → List (ℕ × List (Row V)) → List (Row V)
rows_in [] = []
rows_in ((m, rows) ∷ partitions) = rows ++ rows_in partitions

-- what a row contributes to the hour `h` of the series `s`
abbrev pub at_hour : {V : Type 0} → ℕ → ℕ → Row V → Option (Partial V)
at_hour s h r = if r.sid == s && hour_of r.ts == h then some (single r.value) else none

abbrev pub IsPlaced : {V : Type 0} → ℕ × List (Row V) → Type 0
IsPlaced p = All (λ r. month_partition_key r.ts ≡ p.0) p.1

module _ {V : Type 0} (A : Values V) where
  -- the aggregate of a series over an hour, from the measurements
  abbrev pub raw : List (ℕ × List (Row V)) → ℕ → ℕ → Option (Partial V)
  raw partitions s h = gather (partials A) (at_hour s h) (rows_in partitions)

  pub record IsSound (db : Db V) : Type 0 where
    pub months : IsDict db.partitions
    pub hours : IsDict db.rollup
    pub placed : All IsPlaced db.partitions
    pub on_hour : hour_of (rollup_watermark db) ≡ rollup_watermark db
    -- below the watermark the rollup is exact
    pub exact :
        (s h : ℕ) → h < rollup_watermark db → lookup (s, h) db.rollup ≡ raw db.partitions s h
    -- the rollup has no hour without measurements
    pub backed : (s h : ℕ) → raw db.partitions s h ≡ none → lookup (s, h) db.rollup ≡ none
