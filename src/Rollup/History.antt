-- ===== src/Rollup/History.antt =====
-- partition/rollup.py: histories of writes, passes and drops, each running as a whole.
use sqtseries.Dict.{lookup}
use mathlib.Core.Path.{subst}
use sqtseries.Prelude.{ℕ, ◌≡◌, refl, some, List, arith, nat_eq, string_eq}
use sqtseries.Partials.{Values}
use sqtseries.Rollup.{Row, Db, empty, rollup_watermark, rollup_new_hours}
use sqtseries.Rollup.Writes.{insert_many, drop_partition}
use sqtseries.Rollup.Sound.{IsSound}
use sqtseries.Rollup.Advance.{rollup_new_hours_total}
use sqtseries.Rollup.Ingest.{insert_many-IsSound}
use sqtseries.Rollup.Retire.{drop_partition-IsSound}

module _ {V : Type 0} (A : Values V) where
  -- What the service does to the tables. A refused batch is rolled back: no step.
  pub data Step : Db V → Db V → Type 0 where
    write :
        {db db' : Db V} (rows : List (Row V)) (count : ℕ)
        → insert_many rows db ≡ some (db', count)
        → Step db db'
    pass :
        {db db' : Db V} (now_ns skew_ns written : ℕ)
        → rollup_new_hours A now_ns skew_ns db ≡ some (db', written)
        → Step db db'
    retire : {db : Db V} (m : ℕ) → Step db (drop_partition m db)

  pub data Reached : Db V → Type 0 where
    new : Reached empty
    next : {db db' : Db V} → Reached db → Step db db' → Reached db'

  empty-IsSound : IsSound A empty
  unfolding rollup_watermark lookup
  empty-IsSound = record {
    months = tt;
    hours = tt;
    placed = tt;
    on_hour = refl;
    exact = λ s h below. absurd (omega arith);
    backed = λ s h e. refl;
  }

  Step-IsSound : {db db' : Db V} → Step db db' → IsSound A db → IsSound A db'
  Step-IsSound (write {db} {db'} rows count e) sound =
      insert_many-IsSound A rows db db' count sound e
  Step-IsSound (pass {db} {db'} now_ns skew_ns written e) sound =
      let (db'', n, done, kept, same, mark) = rollup_new_hours_total A now_ns skew_ns db sound in
      let same : db'' ≡ db' = ground (arith, done, e) in subst (IsSound A) same kept
  Step-IsSound (retire {db} m) sound = drop_partition-IsSound A m db sound

  -- In every state that the service reaches from empty tables by writes of any age, passes at any
  -- time and drops of any month, each running as a whole, the rollup below the watermark has, for
  -- every series and hour, exactly the aggregate of the stored measurements, and none if there are
  -- none; the watermark is on the hour, every row lies in the partition of its month, and no hour
  -- of the rollup is without measurements.
  pub Reached-IsSound : {db : Db V} → Reached db → IsSound A db
  Reached-IsSound new = empty-IsSound
  Reached-IsSound (next r st) = Step-IsSound st (Reached-IsSound r)
