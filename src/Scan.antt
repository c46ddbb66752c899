-- ===== src/Scan.antt =====
-- engine/store.py: reading measurements over a time range, partition by partition, with a limit that
-- holds over all partitions; and counting them.
-- A partition that was dropped after its name was read has no rows here, as the source skips it.
pub mod Gathered
pub mod Complete
use sqtseries.Prelude.{
  ℕ, zero, suc, ◌+◌, ◌-◌, ◌*◌, ◌/◌, ◌%◌, ◌^◌, ◌≤◌, ◌<◌, min, max, String, ◌≡◌, refl, sym, ap, ◌∙◌,
  ◌≢◌, ◌↔◌, ◌⊎◌, inl, inr, Bool, true, false, ◌&&◌, ◌||◌, not, Option, none, some, List, [], ◌∷◌,
  ◌++◌, map, arith, ltb, leb, ◌==◌, if◌then◌else◌, ltb→lt, lt→ltb, leb→le, ==_iff, Bool-cases,
  Option-cases, Eq, eq_of_discrete, string_discrete, pair_eq, nat_eq, string_eq, length, take, drop,
  keep, length-append, length-take, length-drop, length-keep-le, All, All-append,
}
use mathlib.Core.List.{reverse}
use sqtseries.Prelude.Sorted.{sorted, has}
use sqtseries.Dict.{lookup}
use sqtseries.Schema.{month_start_ns}
use sqtseries.Rollup.{Row, Db, names}
use sqtseries.Rollup.Writes.{rows_of}

-- `order`: anything but `asc` reads downwards
pub data Order : Type 0 where
  asc desc : Order

-- `if not start_ns`: no bound, or 0
abbrev pub is_falsy : Option ℕ → Bool
is_falsy none = true
is_falsy (some n) = n == 0

abbrev pub not_before : Option ℕ → ℕ → Bool
not_before none ts = true
not_before (some start) ts = leb start ts

abbrev pub not_after : Option ℕ → ℕ → Bool
not_after none ts = true
not_after (some end) ts = leb ts end

-- the loop of `_partitions_for_range`; the last nanosecond of the month is inside
abbrev pub overlaps : Option ℕ → Option ℕ → ℕ → Bool
overlaps start end m =
    not_before start (month_start_ns (suc m) - 1) && not_after end (month_start_ns m)

-- what is left of the limit
abbrev pub rest_of : Option ℕ → ℕ → Option ℕ
rest_of none n = none
rest_of (some r) n = some (r - n)

module _ {V : Type 0} where
  unfoldable pub all_partitions : Db V → List ℕ
  all_partitions db = sorted leb (names db.partitions)

  unfoldable pub partitions_for_range : Db V → Option ℕ → Option ℕ → List ℕ
  unfolding all_partitions
  partitions_for_range db start end =
      if is_falsy start && is_falsy end
      then all_partitions db
      else keep (overlaps start end) (all_partitions db)

  -- `WHERE series_id IN (…) AND timestamp_ns >= ? AND timestamp_ns <= ?`
  abbrev pub selected : List ℕ → Option ℕ → Option ℕ → Row V → Bool
  selected sids start end r = has r.sid sids && (not_before start r.ts && not_after end r.ts)

  -- `ORDER BY timestamp_ns`
  abbrev pub row_le : Order → Row V → Row V → Bool
  row_le asc a b = leb a.ts b.ts
  row_le desc a b = leb b.ts a.ts

  -- `LIMIT ?`
  abbrev pub limited : Option ℕ → List (Row V) → List (Row V)
  limited none rows = rows
  limited (some n) rows = take n rows

  unfoldable pub select_rows : List ℕ → Option ℕ → Option ℕ → Order → ℕ → Db V → List (Row V)
  unfolding lookup rows_of
  select_rows sids start end order m db =
      sorted (row_le order) (keep (selected sids start end) (rows_of (lookup m db.partitions)))

  -- the loop over the partitions, with the limit that remains; it returns when a row uses it up
  unfoldable pub scan :
      List ℕ → Option ℕ → Option ℕ → Order → List ℕ → Option ℕ → Db V → List (Row V)
  unfolding select_rows
  scan sids start end order [] remaining db = []
  scan sids start end order (m ∷ ms) remaining db =
      let rows = limited remaining (select_rows sids start end order m db) in
      rows ++ scan sids start end order ms (rest_of remaining (length rows)) db

  unfoldable pub query_time_range :
      List ℕ → Option ℕ → Option ℕ → Option ℕ → Order → Db V → List (ℕ × V)
  unfolding scan partitions_for_range
  query_time_range sids start end limit order db =
      map (λ r. (r.ts, r.value))
        (scan sids start end order
          (elim order [
            | asc ↦ partitions_for_range db start end
            | desc ↦ reverse (partitions_for_range db start end)
          ])
          limit db)

  -- `SELECT COUNT(*)` of every partition, added up
  count_partitions : List ℕ → Option ℕ → Option ℕ → List ℕ → Db V → ℕ
  unfolding lookup rows_of
  count_partitions sids start end [] db = 0
  count_partitions sids start end (m ∷ ms) db =
      length (keep (selected sids start end) (rows_of (lookup m db.partitions)))
      + count_partitions sids start end ms db

  -- without series there are no rows, as in the source
  unfoldable pub count_in_range : List ℕ → Option ℕ → Option ℕ → Db V → ℕ
  unfolding count_partitions partitions_for_range
  count_in_range [] start end db = 0
  count_in_range (s ∷ sids) start end db =
      count_partitions (s ∷ sids) start end (partitions_for_range db start end) db
