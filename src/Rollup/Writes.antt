-- ===== src/Rollup/Writes.antt =====
-- engine/store.py and partition/rollup.py: the measurement part of `insert_many` (its rows carry the
-- series ids), with `rewind_watermark` in the same transaction, and `drop_partition`
-- with `_drop_rollup_rows` of partition/retention.py.
use sqtseries.Prelude.{
  ℕ, min, Bool, true, false, ◌&&◌, ◌||◌, Option, none, some, List, [], ◌∷◌, leb, ◌==◌,
  if◌then◌else◌, nat_eq, string_eq, length,
}
use sqtseries.Dict.{lookup, assign, without}
use sqtseries.Schema.{month_partition_key}
use sqtseries.Rollup.{Row, Db, hour_of, month_bounds, delete_hours}

-- the primary key of a partition is (series_id, timestamp_ns)
unfoldable pub has_row : {V : Type 0} → ℕ → ℕ → List (Row V) → Bool
has_row sid ts [] = false
has_row sid ts (r ∷ rows) = (r.sid == sid && r.ts == ts) || has_row sid ts rows

unfoldable pub rows_of : {V : Type 0} → Option (List (Row V)) → List (Row V)
rows_of none = []
rows_of (some rows) = rows

unfoldable pub put_row : {V : Type 0} → Row V → List (ℕ × List (Row V)) → List (ℕ × List (Row V))
unfolding rows_of
put_row r parts =
    assign (month_partition_key r.ts) (r ∷ rows_of (lookup (month_partition_key r.ts) parts)) parts

-- `INSERT` into the row's partition, which is created if it is missing; `none` is the error of a
-- duplicate key
unfoldable pub insert_row :
    {V : Type 0} → Row V → List (ℕ × List (Row V)) → Option (List (ℕ × List (Row V)))
unfolding has_row rows_of put_row
insert_row r partitions =
    let m = month_partition_key r.ts in
    let rows = rows_of (lookup m partitions) in
    if has_row r.sid r.ts rows then none else some (put_row r partitions)

unfoldable pub insert_rows :
    {V : Type 0} → List (Row V) → List (ℕ × List (Row V)) → Option (List (ℕ × List (Row V)))
unfolding insert_row
insert_rows [] partitions = some partitions
insert_rows (r ∷ rows) partitions = elim (insert_row r partitions) [
  | none ↦ none
  | some partitions' ↦ insert_rows rows partitions'
]

-- `min(ts_ns for …)` of a non-empty batch
unfoldable pub min_ts : {V : Type 0} → ℕ → List (Row V) → ℕ
min_ts t [] = t
min_ts t (r ∷ rows) = min_ts (min t r.ts) rows

unfoldable pub rewind_watermark : {V : Type 0} → ℕ → Db V → Db V × Bool
rewind_watermark ts_ns db = elim db.watermark [
  | none ↦ (db, false)
  | some watermark ↦
      if leb watermark (hour_of ts_ns)
      then (db, false)
      else (record db { watermark = some (hour_of ts_ns) }, true)
]

-- One transaction: with `none` nothing has changed. The result is the number of rows.
unfoldable pub insert_many : {V : Type 0} → List (Row V) → Db V → Option (Db V × ℕ)
unfolding insert_rows min_ts rewind_watermark
insert_many [] db = some (db, 0)
insert_many (r ∷ rows) db = elim (insert_rows (r ∷ rows) db.partitions) [
  | none ↦ none
  | some partitions ↦ some (
    (rewind_watermark (min_ts r.ts rows) (record db { partitions = partitions })).0,
    length (r ∷ rows),
  )
]

-- `DROP TABLE` and the deletion of the month's rollup rows
unfoldable pub drop_partition : {V : Type 0} → ℕ → Db V → Db V
unfolding without delete_hours month_bounds
drop_partition m db = record db {
  partitions = without m db.partitions;
  rollup = delete_hours (month_bounds m).0 (month_bounds m).1 db.rollup;
}
