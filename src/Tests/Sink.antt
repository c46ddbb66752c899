-- ===== src/Tests/Sink.antt =====
-- A batch of two points of one series, and a database that strikes the first attempt.
use sqtseries.Prelude.{
  ℕ, ◌≡◌, refl, none, some, Option, List, [], ◌∷◌, map, ◌==◌, if◌then◌else◌, nat_eq, string_eq,
  arith,
}
use sqtseries.Prelude.Text.{text_eq}
use sqtseries.Dict.{lookup, assign}
use sqtseries.Rollup.{Db, empty}
use sqtseries.Schema.{month_partition_key}
use sqtseries.Rollup.Writes.{insert_many}
use sqtseries.Series.{SeriesKey, find, resolve_series, roll_back}
use sqtseries.Series.Resolved.{IsFaithful}
use sqtseries.Sink.{Tally, Point, Engine, sink}
use sqtseries.Sink.Lands.{IsIn, row_for, sink_lands}

abbrev strikes_once : ℕ → Option ℕ
strikes_once attempt = if attempt == 1 then some 1 else none

abbrev no_rows : Tally
no_rows = record { persisted_count = 0; dropped_count = 0; sink_retry_count = 0 }

abbrev batch : List (Point ℕ)
batch =
    record { key = (99 ∷ [], none); ts = 5; value = 10 }
    ∷ record { key = (99 ∷ [], none); ts = 7; value = 3 }
    ∷ []

-- the series is in the table and not in the caches
abbrev engine : Engine ℕ
engine = record {
  store = record {
    series = (1, (99 ∷ [], none)) ∷ [];
    series_cache = [];
    id_cache = [];
    cache_size = 2;
  };
  db = empty;
}

engine-IsFaithful : IsFaithful engine.store
unfolding lookup find
engine-IsFaithful = record {
  ids = (refl, tt);
  cache_keys = tt;
  cache_ids = tt;
  cached = λ k i h. cc;
  named = λ i k h. cc;
}

series_known : find (99 ∷ [], none) engine.store.series ≡ some 1
unfolding find
series_known = refl

abbrev landed : Db ℕ
landed = record {
  partitions =
      (0, record { sid = 1; ts = 7; value = 3 } ∷ record { sid = 1; ts = 5; value = 10 } ∷ []) ∷ [];
  rollup = [];
  watermark = none;
}

two_rows_in : insert_many (map (row_for engine.store.series) batch) engine.db ≡ some (landed, 2)
unfolding insert_many lookup assign month_partition_key find
two_rows_in = refl

-- Without a store a batch is neither persisted nor counted as dropped.
uncounted_without_store : sink strikes_once batch (none, no_rows) ≡ (none, no_rows)
unfolding sink
uncounted_without_store = refl

-- The first attempt makes the series and is rolled back; the second one finds its id in the cache,
-- stores the rows under it and counts them, and no series has it.
abbrev new_engine : Engine ℕ
new_engine = record engine {
  store = record { series = []; series_cache = []; id_cache = []; cache_size = 2 };
}

abbrev orphaned : Option (Engine ℕ) × Tally
orphaned = sink strikes_once batch (some new_engine, no_rows)

rows_without_series :
    (orphaned.1.persisted_count ≡ 2)
    × (elim orphaned.0 as (λ _. List (ℕ × SeriesKey)) [ none ↦ [] | some e ↦ e.store.series ] ≡ [])
    × (elim orphaned.0 as (λ _. Db ℕ) [ none ↦ empty | some e ↦ e.db ] ≡ landed)
unfolding sink insert_many lookup assign month_partition_key find resolve_series roll_back
rows_without_series = (refl, refl, refl)

sink_lands_example :
    (s : Engine ℕ × Tally) × (sink strikes_once batch (some engine, no_rows) ≡ (some s.0, s.1))
    × IsIn batch landed engine no_rows s
sink_lands_example =
    sink_lands strikes_once 1 batch engine landed 2 no_rows (λ e. ground (arith, e))
      engine-IsFaithful ((1, series_known), ((1, series_known), tt)) (omega arith) refl two_rows_in
