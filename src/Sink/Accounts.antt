-- ===== src/Sink/Accounts.antt =====
-- service.py: what the counters of `_sink` say of a batch.
use sqtseries.Prelude.{
  ℕ, ◌+◌, ◌≤◌, ◌≡◌, ◌⊎◌, some, List, [], ◌∷◌, map, arith, nat_eq, string_eq, length,
}
use sqtseries.Rollup.{Row, Db}
use sqtseries.Rollup.Writes.{insert_many}
use sqtseries.Sink.{Tally, Point, Engine, Outcome, inserted, struck, failed}

module _ {V : Type 0} where
  abbrev pub point_values : List (Point V) → List (ℕ × V)
  point_values = map (λ p. (p.ts, p.value))

  abbrev pub row_values : List (Row V) → List (ℕ × V)
  row_values = map (λ r. (r.ts, r.value))

  -- nothing of the batch is in the tables
  abbrev pub Kept : Engine V → Engine V → Type 0
  Kept e e' = (e'.db ≡ e.db) × (e'.store.series ≡ e.store.series)

  -- a row for each point is in the tables, once
  abbrev pub Stored : List (Point V) → Engine V → Engine V → Type 0
  Stored points e e' =
      (rows : List (Row V)) × (row_values rows ≡ point_values points)
      × (insert_many rows e.db ≡ some (e'.db, length points))

  abbrev pub Landed : List (Point V) → Engine V × Tally → Engine V × Tally → Type 0
  Landed points (e, t) (e', t') =
      Stored points e e'
      × (t'.persisted_count ≡ t.persisted_count + length points)
      × (t'.dropped_count ≡ t.dropped_count)

  abbrev pub Dropped : List (Point V) → Engine V × Tally → Engine V × Tally → Type 0
  Dropped points (e, t) (e', t') =
      Kept e e'
      × (t'.persisted_count ≡ t.persisted_count)
      × (t'.dropped_count ≡ t.dropped_count + length points)

  pub count-insert_many :
      (rows : List (Row V)) (db db' : Db V) (n : ℕ)
      → insert_many rows db ≡ some (db', n)
      → n ≡ length rows
  unfolding insert_many
  count-insert_many [] db db' n e = ground (arith, e)
  count-insert_many (r ∷ rows) db db' n e = ground (arith, e)

  -- how an attempt can end
  abbrev Ended : List (Point V) → Engine V → Engine V × Outcome → Type 0
  Ended points e (e', inserted n) = Stored points e e' × (n ≡ length points)
  Ended points e (e', struck) = Kept e e'
  Ended points e (e', failed) = Kept e e'

  abbrev Accounted : List (Point V) → ℕ → Engine V × Tally → Engine V × Tally → Type 0
  Accounted points left s s' =
      (Landed points s s' ⊎ Dropped points s s')
      × (s'.1.sink_retry_count ≤ s.1.sink_retry_count + left)
