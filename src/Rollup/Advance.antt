-- ===== src/Rollup/Advance.antt =====
-- partition/rollup.py: `rollup_new_hours`, the loop over partitions and the last transaction.
use sqtseries.Prelude.{true}
use sqtseries.Prelude.{sym, Bool-cases}
use sqtseries.Prelude.{Option-cases, inl, inr, leb, max}
use sqtseries.Rollup.Pass.{raw_elsewhere}
use sqtseries.Rollup.{settle, rollup_new_hours, completed_hour_ns, partitions_for_range, hour_of}
use sqtseries.Rollup.Sound.{IsSound}
use sqtseries.Prelude.Sorted.{has}
use sqtseries.Rollup.Range.{Exists, range-Exists, range_complete}
use sqtseries.Prelude.{
  ℕ, ◌+◌, ◌<◌, ◌≡◌, refl, ap, ◌∙◌, false, ◌&&◌, none, some, List, [], ◌∷◌, arith, ◌==◌,
  if◌then◌else◌, nat_eq, string_eq, All,
}
use sqtseries.Dict.{lookup, IsDict}
use sqtseries.Schema.{month_partition_key}
use sqtseries.Partials.{Values}
use sqtseries.Rollup.{
  Row, Db, hour_key_eq, hour_of, select_groups, roll_rows, rollup_partition, roll_all,
  rollup_watermark,
}
use sqtseries.Rollup.Sound.{IsPlaced, raw}
use sqtseries.Rollup.Pass.{lookup-roll_rows, covers, replace_all-IsDict}

-- The state of a pass from `w` to `c`.
record IsRolling {V : Type 0} (A : Values V) (w c : ℕ) (db : Db V) : Type 0 where
  months : IsDict db.partitions
  hours : IsDict db.rollup
  placed : All IsPlaced db.partitions
  start : rollup_watermark db ≡ w
  start_on_hour : hour_of w ≡ w
  end_on_hour : hour_of c ≡ c
  ahead : w < c
  backed : (s h : ℕ) → raw A db.partitions s h ≡ none → lookup (s, h) db.rollup ≡ none

module _ {V : Type 0} (A : Values V) (w c : ℕ) where
  -- what one partition's pass leaves
  record IsRolled (ms : List ℕ) (db db' : Db V) : Type 0 where
    same_rows : db'.partitions ≡ db.partitions
    same_mark : db'.watermark ≡ db.watermark
    rolling : IsRolling A w c db'
    entries :
        (s h : ℕ)
        → lookup (s, h) db'.rollup ≡ (
            if covers w c h && has (month_partition_key h) ms
            then raw A db.partitions s h
            else lookup (s, h) db.rollup)

  step :
      (m : ℕ) (rows : List (Row V)) (db : Db V)
      → IsRolling A w c db
      → lookup m db.partitions ≡ some rows
      → IsRolled (m ∷ []) db (roll_rows A false w c rows db).0
  unfolding roll_rows
  step m rows db r found =
      let same : (roll_rows A false w c rows db).0.partitions ≡ db.partitions =
        unfold roll_rows in refl in
      let mark : (roll_rows A false w c rows db).0.watermark ≡ db.watermark =
        unfold roll_rows in refl in
      let entry : (s h : ℕ)
          → lookup (s, h) (roll_rows A false w c rows db).0.rollup ≡ (
              if covers w c h && (month_partition_key h == m)
              then raw A db.partitions s h
              else lookup (s, h) db.rollup) =
        λ s h.
          lookup-roll_rows A w c m s h rows db r.start_on_hour r.end_on_hour r.months r.placed found
            (r.backed s h) in
      record {
        same_rows = same;
        same_mark = mark;
        rolling = record {
          months = r.months;
          hours =
              unfold roll_rows in replace_all-IsDict db.rollup (select_groups A w c rows) r.hours;
          placed = r.placed;
          start = unfold roll_rows rollup_watermark in r.start;
          start_on_hour = r.start_on_hour;
          end_on_hour = r.end_on_hour;
          ahead = r.ahead;
          backed = λ s h e. ground (arith, entry s h, r.backed s h (rw same at e));
        };
        entries = λ s h. ground (arith, entry s h);
      }

  then_roll :
      (m : ℕ) (ms : List ℕ) (a b d : Db V)
      → IsRolled (m ∷ []) a b
      → IsRolled ms b d
      → IsRolled (m ∷ ms) a d
  then_roll m ms a b d p q = record {
    same_rows = q.same_rows ∙ p.same_rows;
    same_mark = q.same_mark ∙ p.same_mark;
    rolling = q.rolling;
    entries =
        λ s h. ground (arith, p.entries s h, q.entries s h, ap (λ x. raw A x s h) p.same_rows);
  }

  partition-step :
      (m : ℕ) (rows : List (Row V)) (db : Db V)
      → IsRolling A w c db
      → lookup m db.partitions ≡ some rows
      → rollup_partition A m false c db ≡ some (roll_rows A false w c rows db)
  unfolding rollup_partition
  partition-step m rows db r found = rw (r.start, found) (ground (arith, r.ahead))

  roll_all_step :
      (m : ℕ) (ms : List ℕ) (db : Db V) (total : ℕ) (x : Db V × ℕ)
      → rollup_partition A m false c db ≡ some x
      → roll_all A (m ∷ ms) c db total ≡ roll_all A ms c x.0 (total + x.1)
  unfolding roll_all
  roll_all_step m ms db total x e = ground (arith, e)

  roll_all_total :
      (ms : List ℕ) (parts : List (ℕ × List (Row V))) (db : Db V) (total : ℕ)
      → IsRolling A w c db
      → db.partitions ≡ parts
      → All (Exists parts) ms
      → (db' : Db V) × (n : ℕ) × (roll_all A ms c db total ≡ some (db', n)) × IsRolled ms db db'
  unfolding roll_all
  roll_all_total [] parts db total r same there = (
    db,
    total,
    refl,
    record { same_rows = refl; same_mark = refl; rolling = r; entries = λ s h. ground arith },
  )
  roll_all_total (m ∷ ms) parts db total r same (there, rest) =
      let (rows, found) = there in
      let here : lookup m db.partitions ≡ some rows = rw same found in
      let first = step m rows db r here in
      let (db', count, done, rolled) =
        roll_all_total ms parts (roll_rows A false w c rows db).0
          (total + (roll_rows A false w c rows db).1) first.rolling (first.same_rows ∙ same) rest in
      (
        db',
        count,
        roll_all_step m ms db total _ (partition-step m rows db r here) ∙ done,
        then_roll m ms db (roll_rows A false w c rows db).0 db' first rolled,
      )

  settle-done :
      (db : Db V) → rollup_watermark db ≡ w → settle A w c db ≡ record db { watermark = some c }
  unfolding settle rollup_watermark
  settle-done db at = ground (arith, at)

  visited_exact :
      (db db' : Db V) (s h : ℕ)
      → IsSound A db
      → rollup_watermark db ≡ w
      → IsRolled (partitions_for_range db w c) db db'
      → h < c
      → lookup (s, h) db'.rollup ≡ raw A db.partitions s h
  visited_exact db db' s h sound at r below =
      elim (Option-cases (lookup (month_partition_key h) db.partitions)) [
        | inl absent ↦
            let nothing = raw_elsewhere A s h db.partitions sound.placed absent in
            ground (arith, r.entries s h, nothing, sound.backed s h nothing)
        | inr (rows, found) ↦
            ground (arith, r.entries s h, sound.exact s h, range_complete db w c h rows, found, at)
      ]

  settled-IsSound :
      (db db' : Db V)
      → IsSound A db
      → rollup_watermark db ≡ w
      → IsRolled (partitions_for_range db w c) db db'
      → IsSound A (record db' { watermark = some c })
  unfolding rollup_watermark
  settled-IsSound db db' sound at r = record {
    months = r.rolling.months;
    hours = r.rolling.hours;
    placed = r.rolling.placed;
    on_hour = r.rolling.end_on_hour;
    exact = λ s h below.
        visited_exact db db' s h sound at r below ∙ ap (λ x. raw A x s h) (sym r.same_rows);
    backed = r.rolling.backed;
  }

module _ {V : Type 0} (A : Values V) (now_ns skew_ns : ℕ) (db : Db V) where
  new_hours_idle :
      leb (completed_hour_ns now_ns skew_ns) (rollup_watermark db) ≡ true
      → rollup_new_hours A now_ns skew_ns db ≡ some (db, 0)
  unfolding rollup_new_hours
  new_hours_idle h = rw h

  new_hours_work :
      (db' : Db V) (written : ℕ)
      → leb (completed_hour_ns now_ns skew_ns) (rollup_watermark db) ≡ false
      → roll_all A
          (partitions_for_range db (rollup_watermark db) (completed_hour_ns now_ns skew_ns))
          (completed_hour_ns now_ns skew_ns)
          db
          0
        ≡ some (db', written)
      → rollup_new_hours A now_ns skew_ns db
        ≡ some (settle A (rollup_watermark db) (completed_hour_ns now_ns skew_ns) db', written)
  unfolding rollup_new_hours
  new_hours_work db' written h e = rw h (ground (arith, e))

  -- From sound tables, at any time and with any skew, a pass succeeds (no partition that it reads
  -- is missing), leaves the measurements alone and the tables sound, and moves the watermark to the
  -- hour of the time less the skew, rounded as floats are, if that is ahead of it, and nowhere
  -- otherwise.
  pub rollup_new_hours_total :
      IsSound A db
      → (db' : Db V) × (written : ℕ) × (rollup_new_hours A now_ns skew_ns db ≡ some (db', written))
        × IsSound A db'
        × (db'.partitions ≡ db.partitions)
        × (rollup_watermark db' ≡ max (rollup_watermark db) (completed_hour_ns now_ns skew_ns))
  rollup_new_hours_total sound =
      let c : ℕ = completed_hour_ns now_ns skew_ns in
      let w : ℕ = rollup_watermark db in
      elim (Bool-cases (leb c w)) [
        | inl idle ↦ (db, 0, new_hours_idle idle, sound, refl, ground arith)
        | inr work ↦
            let (db', n, done, r) =
              roll_all_total A w c (partitions_for_range db w c) db.partitions db 0
                (start sound work) refl (range-Exists db w c) in
            let at' : rollup_watermark db' ≡ w = same_mark db' r.same_mark in
            (
              record db' { watermark = some c },
              n,
              new_hours_work db' n work done ∙ ap (λ x. some (x, n)) (settle-done A w c db' at'),
              settled-IsSound A w c db db' sound refl r,
              r.same_rows,
              unfold rollup_watermark in ground arith,
            )
      ]
    where
      start :
          IsSound A db
          → leb (completed_hour_ns now_ns skew_ns) (rollup_watermark db) ≡ false
          → IsRolling A (rollup_watermark db) (completed_hour_ns now_ns skew_ns) db
      start sound work = record {
        months = sound.months;
        hours = sound.hours;
        placed = sound.placed;
        start = refl;
        start_on_hour = sound.on_hour;
        end_on_hour = unfold completed_hour_ns in omega arith;
        ahead = ground arith;
        backed = sound.backed;
      }

      same_mark :
          (db' : Db V) → db'.watermark ≡ db.watermark → rollup_watermark db' ≡ rollup_watermark db
      same_mark db' e = unfold rollup_watermark in ground (arith, e)
