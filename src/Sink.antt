-- ===== src/Sink.antt =====
-- service.py: `_sink`, which persists a drained batch with a bounded number of attempts, through
-- `insert_many` of engine/store.py: the series of all points are resolved, then their rows inserted,
-- in one transaction. Where an OperationalError meets an attempt is a parameter: after the series of
-- how many points were resolved, which is all of them for a failure in the inserts or the commit.
pub mod Accounts
pub mod Lands
use sqtseries.Prelude.{
  ℕ, zero, suc, ◌+◌, ◌-◌, ◌*◌, ◌/◌, ◌%◌, ◌^◌, ◌≤◌, ◌<◌, min, max, String, ◌≡◌, refl, sym, ap, ◌∙◌,
  ◌≢◌, ◌↔◌, ◌⊎◌, inl, inr, Bool, true, false, ◌&&◌, ◌||◌, not, Option, none, some, List, [], ◌∷◌,
  ◌++◌, map, arith, ltb, leb, ◌==◌, if◌then◌else◌, ltb→lt, lt→ltb, leb→le, ==_iff, Bool-cases,
  Option-cases, Eq, eq_of_discrete, string_discrete, pair_eq, option_eq, nat_eq, string_eq, length,
  take, drop, keep, length-append, length-take, length-drop, length-keep-le, All, All-append,
}
use sqtseries.Rollup.{Row, Db}
use sqtseries.Rollup.Writes.{insert_many}
use sqtseries.Series.{Store, SeriesKey, resolve_series, roll_back}

abbrev pub sink_max_attempts : ℕ
sink_max_attempts = 4

pub record Tally : Type 0 where
  pub persisted_count : ℕ
  pub dropped_count : ℕ
  pub sink_retry_count : ℕ

pub record Point (V : Type 0) : Type 0 where
  pub key : SeriesKey
  pub ts : ℕ
  pub value : V

-- the series with their caches, and the measurements
pub record Engine (V : Type 0) : Type 0 where
  pub store : Store
  pub db : Db V

-- how an attempt ends: with a count, with an OperationalError, with another exception
pub data Outcome : Type 0 where
  inserted : ℕ → Outcome
  struck failed : Outcome

module _ {V : Type 0} where
  -- the loop over the points; with series that may be created no point is refused
  unfoldable pub resolve_points : List (Point V) → Store → Option (Store × List (Row V))
  unfolding resolve_series
  resolve_points [] store = some (store, [])
  resolve_points (p ∷ points) store = elim (resolve_series true p.key store) [
    | none ↦ none
    | some (store', sid) ↦ elim (resolve_points points store') [
      | none ↦ none
      | some (last, rows) ↦ some (last, record { sid = sid; ts = p.ts; value = p.value } ∷ rows)
    ]
  ]

  -- a transaction that fails when these points are resolved: the caches keep what they have learnt
  unfoldable pub abandon : List (Point V) → Engine V → Engine V
  unfolding resolve_points roll_back
  abandon points e = elim (resolve_points points e.store) [
    | none ↦ e
    | some (store', rows) ↦ record e { store = roll_back e.store store' }
  ]

  -- the inserts, after all points are resolved
  unfoldable pub insert_resolved :
      List (Point V) → Engine V → Option (Store × List (Row V)) → Engine V × Outcome
  unfolding abandon
  insert_resolved points e none = (e, failed)
  insert_resolved points e (some (store', rows)) = elim (insert_many rows e.db) [
    | none ↦ (abandon points e, failed)
    | some (db', n) ↦ (record { store = store'; db = db' }, inserted n)
  ]

  unfoldable pub insert_points : Option ℕ → List (Point V) → Engine V → Engine V × Outcome
  unfolding insert_resolved
  insert_points (some n) points e = (abandon (take n points) e, struck)
  insert_points none points e = insert_resolved points e (resolve_points points e.store)

  -- the counters after the last attempt
  abbrev pub tallied : List (Point V) → Outcome → Tally → Tally
  tallied points (inserted n) t = record t { persisted_count = t.persisted_count + n }
  tallied points struck t = record t { dropped_count = t.dropped_count + length points }
  tallied points failed t = record t { dropped_count = t.dropped_count + length points }

  -- attempt number `attempt`, with `left` more to come
  unfoldable pub attempts :
      (ℕ → Option ℕ) → ℕ → ℕ → List (Point V) → Engine V → Tally → Engine V × Tally
  unfolding insert_points
  attempts strikes attempt zero points e t =
      let (e', outcome) = insert_points (strikes attempt) points e in (e', tallied points outcome t)
  attempts strikes attempt (suc left) points e t =
      let (e', outcome) = insert_points (strikes attempt) points e in
      elim outcome [
        | inserted n ↦ (e', tallied points (inserted n) t)
        | failed ↦ (e', tallied points failed t)
        | struck ↦
            attempts strikes (attempt + 1) left points e'
              (record t { sink_retry_count = t.sink_retry_count + 1 })
      ]

  -- without a store nothing is done, and nothing counted
  unfoldable pub sink :
      (ℕ → Option ℕ) → List (Point V) → Option (Engine V) × Tally → Option (Engine V) × Tally
  unfolding attempts
  sink strikes points (none, t) = (none, t)
  sink strikes [] (some e, t) = (some e, t)
  sink strikes (p ∷ points) (some e, t) =
      let (e', t') = attempts strikes 1 (sink_max_attempts - 1) (p ∷ points) e t in (some e', t')
