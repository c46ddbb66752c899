-- ===== src/Rollup.antt =====
-- partition/rollup.py: hourly aggregates of the measurements, and the watermark that says how far
-- they have come. The store's writes that move the watermark are in Rollup/Writes.antt.
-- The table `rollup_meta` holds at most the row `last_hour`, so it is the field `watermark`; a table
-- that is not there yet is one with no row.
pub mod Writes
pub mod Pass
pub mod Sound
pub mod Advance
pub mod Range
pub mod Ingest
pub mod Retire
pub mod History
use sqtseries.Prelude.{
  ℕ, zero, suc, ◌+◌, ◌-◌, ◌*◌, ◌/◌, ◌%◌, ◌^◌, ◌≤◌, ◌<◌, min, max, String, ◌≡◌, refl, sym, ap, ◌∙◌,
  ◌≢◌, ◌↔◌, ◌⊎◌, inl, inr, Bool, true, false, ◌&&◌, ◌||◌, not, Option, none, some, List, [], ◌∷◌,
  ◌++◌, map, arith, ltb, leb, ◌==◌, if◌then◌else◌, ltb→lt, lt→ltb, leb→le, ==_iff, Bool-cases,
  Option-cases, Eq, eq_of_discrete, string_discrete, pair_eq, nat_eq, string_eq, length, take, drop,
  keep, length-append, length-take, length-drop, length-keep-le, All, All-append,
}
use sqtseries.Prelude.Sorted.{sorted}
use sqtseries.Prelude.Double.{to_double}
use sqtseries.Dict.{lookup, assign}
use sqtseries.Partials.{Values, Partial, single, partials}
use sqtseries.Partials.Tables.{merge}
use sqtseries.Schema.{hour_ns, month_start_ns}

-- a row of a `measurements_YYYY_MM` table
pub record Row (V : Type 0) : Type 0 where
  pub sid : ℕ
  pub ts : ℕ
  pub value : V

abbrev pub HourKey : Type 0
HourKey = ℕ × ℕ

instance abbrev pub hour_key_eq : Eq HourKey
hour_key_eq = pair_eq

pub record Db (V : Type 0) : Type 0 where
  pub partitions : List (ℕ × List (Row V))
  pub rollup : List (HourKey × Partial V)
  pub watermark : Option ℕ

abbrev pub empty : {V : Type 0} → Db V
empty = record { partitions = []; rollup = []; watermark = none }

abbrev pub hour_of : ℕ → ℕ
hour_of ts = ts / hour_ns * hour_ns

-- `completed_hour_ns(int(now - skew_s * 1_000_000_000))`: the product is a float, here one that is a
-- whole number of nanoseconds, so the time becomes a float, and so does the difference
unfoldable pub completed_hour_ns : ℕ → ℕ → ℕ
unfolding to_double
completed_hour_ns now_ns skew_ns = hour_of (to_double (to_double now_ns - skew_ns))

unfoldable pub rollup_watermark : {V : Type 0} → Db V → ℕ
rollup_watermark db = elim db.watermark [ none ↦ 0 | some w ↦ w ]

-- `_month_bounds`
unfoldable pub month_bounds : ℕ → ℕ × ℕ
month_bounds m = (month_start_ns m, month_start_ns (suc m))

abbrev pub names : {V : Type 0} → List (ℕ × List (Row V)) → List ℕ
names = map (λ p. p.0)

-- the test of the loop in `_partitions_for_range`
abbrev pub meets : ℕ → ℕ → ℕ → Bool
meets start_ns end_ns m =
    not (ltb (month_start_ns (suc m)) start_ns || leb end_ns (month_start_ns m))

unfoldable pub partitions_for_range : {V : Type 0} → Db V → ℕ → ℕ → List ℕ
partitions_for_range db start_ns end_ns =
    sorted leb (keep (meets start_ns end_ns) (names db.partitions))

module _ {V : Type 0} (A : Values V) where
  -- a row as its contribution to the hour that it lies in
  abbrev pub hour_part : Row V → HourKey × Partial V
  hour_part r = ((r.sid, hour_of r.ts), single r.value)

  abbrev pub within : ℕ → ℕ → Row V → Bool
  within start_ns cutoff r = leb start_ns r.ts && ltb r.ts cutoff

  -- `SELECT series_id, hour, COUNT(*), SUM(value), MIN(value), MAX(value) … GROUP BY series_id, hour`
  unfoldable pub select_groups : ℕ → ℕ → List (Row V) → List (HourKey × Partial V)
  unfolding merge
  select_groups start_ns cutoff rows =
      merge (partials A) [] (map hour_part (keep (within start_ns cutoff) rows))

-- `INSERT OR REPLACE` of every group
unfoldable pub replace_all :
    {V : Type 0}
    → List (HourKey × Partial V)
    → List (HourKey × Partial V)
    → List (HourKey × Partial V)
unfolding assign
replace_all table [] = table
replace_all table ((k, p) ∷ groups) = replace_all (assign k p table) groups

-- `DELETE FROM rollup_hourly WHERE hour_start_ns >= ? AND hour_start_ns < ?`
unfoldable pub delete_hours :
    {V : Type 0} → ℕ → ℕ → List (HourKey × Partial V) → List (HourKey × Partial V)
delete_hours start_ns cutoff = keep (λ x. not (leb start_ns x.0.1 && ltb x.0.1 cutoff))

module _ {V : Type 0} (A : Values V) where
  -- what `rollup_partition` does with the rows of its partition; the rows written are counted
  unfoldable pub roll_rows : Bool → ℕ → ℕ → List (Row V) → Db V → Db V × ℕ
  unfolding select_groups replace_all delete_hours
  roll_rows replace start_ns cutoff rows db =
      let base = if replace then delete_hours start_ns cutoff db.rollup else db.rollup in
      let groups = select_groups A start_ns cutoff rows in
      (record db { rollup = replace_all base groups }, length groups)

  -- `none` is the error of a query on a table that is not there.
  unfoldable pub rollup_partition : ℕ → Bool → ℕ → Db V → Option (Db V × ℕ)
  unfolding roll_rows month_bounds rollup_watermark
  rollup_partition name replace cutoff db =
      let start_ns = if replace then (month_bounds name).0 else rollup_watermark db in
      if leb cutoff start_ns then some (db, 0) else elim (lookup name db.partitions) [
        | none ↦ none
        | some rows ↦ some (roll_rows replace start_ns cutoff rows db)
      ]

  -- the loop of `rollup_new_hours` over the partitions
  unfoldable pub roll_all : List ℕ → ℕ → Db V → ℕ → Option (Db V × ℕ)
  roll_all [] cutoff db total = some (db, total)
  roll_all (name ∷ rest) cutoff db total = elim (rollup_partition name false cutoff db) [
    | none ↦ none
    | some (db', rows) ↦ roll_all rest cutoff db' (total + rows)
  ]

  -- the last transaction: `watermark` is what was read before rolling
  unfoldable pub settle : ℕ → ℕ → Db V → Db V
  settle watermark completed db = elim db.watermark [
    | none ↦ record db { watermark = some completed }
    | some current ↦ record db {
      watermark = some (if ltb current watermark then current else completed);
    }
  ]

  unfoldable pub rollup_new_hours : ℕ → ℕ → Db V → Option (Db V × ℕ)
  rollup_new_hours now_ns skew_ns db =
      let completed = completed_hour_ns now_ns skew_ns in
      let watermark = rollup_watermark db in
      if leb completed watermark
      then some (db, 0)
      else elim (roll_all (partitions_for_range db watermark completed) completed db 0) [
        | none ↦ none
        | some (db', total) ↦ some (settle watermark completed db', total)
      ]
