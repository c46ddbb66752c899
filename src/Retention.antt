-- ===== src/Retention.antt =====
-- partition/retention.py and partition/manager.py: which months are dropped, and the pass that drops
-- them. Times are in nanoseconds; `datetime` counts in microseconds.
pub mod Expired
use sqtseries.Prelude.{
  ℕ, zero, suc, ◌+◌, ◌-◌, ◌*◌, ◌/◌, ◌%◌, ◌^◌, ◌≤◌, ◌<◌, min, max, String, ◌≡◌, refl, sym, ap, ◌∙◌,
  ◌≢◌, ◌↔◌, ◌⊎◌, inl, inr, Bool, true, false, ◌&&◌, ◌||◌, not, Option, none, some, List, [], ◌∷◌,
  ◌++◌, map, arith, ltb, leb, ◌==◌, if◌then◌else◌, ltb→lt, lt→ltb, leb→le, ==_iff, Bool-cases,
  Option-cases, Eq, eq_of_discrete, string_discrete, pair_eq, option_eq, nat_eq, string_eq, length,
  take, drop, keep, length-append, length-take, length-drop, length-keep-le, All, All-append,
}
use sqtseries.Prelude.Sorted.{sorted, has}
use sqtseries.Schema.{day_ns, month_start_ns}
use sqtseries.Rollup.{Db, names}
use sqtseries.Rollup.Writes.{drop_partition}

-- `_last_day_of_month`: midnight at the start of the last day
unfoldable pub last_day_of_month : ℕ → ℕ
last_day_of_month m = month_start_ns (suc m) - day_ns

module _ {V : Type 0} where
  unfoldable pub list_partitions : Db V → List ℕ
  list_partitions db = sorted leb (names db.partitions)

  -- A horizon before 1970 retains everything, and so does one that stops at 0.
  unfoldable pub partitions_to_retain : ℕ → ℕ → Db V → List ℕ
  unfolding list_partitions
  partitions_to_retain now ttl db =
      keep (λ m. leb (now - ttl) (last_day_of_month m)) (list_partitions db)

  -- the loop of `run`: the database and the dropped partitions
  unfoldable pub drop_expired : List ℕ → List ℕ → Db V → Db V × List ℕ
  drop_expired kept [] db = (db, [])
  drop_expired kept (m ∷ ms) db =
      if has m kept
      then drop_expired kept ms db
      else (let (db', dropped) = drop_expired kept ms (drop_partition m db) in (db', m ∷ dropped))

  unfoldable pub run : ℕ → ℕ → Db V → Db V × List ℕ
  run now ttl db = drop_expired (partitions_to_retain now ttl db) (list_partitions db) db
