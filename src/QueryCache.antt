-- ===== src/QueryCache.antt =====
-- messaging/query_cache.py: the query result cache, a least-recently-used dictionary bounded by its
-- number of entries and by the total number of cached rows, with a time to live for each entry.
-- Times are in the unit of the clock `time.monotonic`; every operation takes the reading it makes.
pub mod Keys
pub mod Bounds
pub mod Hits
pub mod Entries
pub mod Eviction
use sqtseries.Prelude.{
  ℕ, zero, suc, ◌+◌, ◌-◌, ◌*◌, ◌/◌, ◌%◌, ◌^◌, ◌≤◌, ◌<◌, min, max, String, ◌≡◌, refl, sym, ap, ◌∙◌,
  ◌≢◌, ◌↔◌, ◌⊎◌, inl, inr, Bool, true, false, ◌&&◌, ◌||◌, not, Option, none, some, List, [], ◌∷◌,
  ◌++◌, map, arith, ltb, leb, ◌==◌, if◌then◌else◌, ltb→lt, lt→ltb, leb→le, ==_iff, Bool-cases,
  Option-cases, Eq, eq_of_discrete, string_discrete, nat_eq, string_eq, length, take, drop, keep,
  length-append, length-take, length-drop, length-keep-le, All, All-append,
}
use sqtseries.Dict.{lookup, without, move_to_end}
use Keys.{Result, row_count, Query, Key, make_key, key_eq}

abbrev pub max_cached_rows : ℕ
max_cached_rows = 10000

pub record Entry (Row : Type 0) : Type 0 where
  pub stamp : ℕ
  pub result : Result Row
  pub rows_held : ℕ

pub record Cache (K Row : Type 0) : Type 0 where
  pub entries : List (K × Entry Row)
  pub maxsize : ℕ
  pub max_weight : ℕ
  pub ttl : ℕ
  pub weight : ℕ
  pub hits : ℕ
  pub misses : ℕ
  pub evicted_weight : ℕ
  pub oversize_skips : ℕ

module _ {K Row : Type 0} where
  unfoldable pub init : ℕ → ℕ → ℕ → Cache K Row
  init maxsize ttl max_weight = record {
    entries = [];
    maxsize = maxsize;
    max_weight = max_weight;
    ttl = ttl;
    weight = 0;
    hits = 0;
    misses = 0;
    evicted_weight = 0;
    oversize_skips = 0;
  }

  -- The test of the eviction loop, for the entries that are left.
  abbrev pub over : Cache K Row → List (K × Entry Row) → Bool
  over c d = ltb c.maxsize (length d) || ltb c.max_weight c.weight

  -- The loop ends at the latest when no entry is left, so it recurs on the entries.
  unfoldable pub evict : List (K × Entry Row) → Cache K Row → Cache K Row
  evict [] c = record c { entries = [] }
  evict ((k, x) ∷ d) c =
      if over c ((k, x) ∷ d)
      then evict d (record c {
        weight = c.weight - x.rows_held;
        evicted_weight = c.evicted_weight + x.rows_held;
      })
      else record c { entries = (k, x) ∷ d }

  unfoldable pub clear : Cache K Row → Cache K Row
  clear c = record c { entries = []; weight = 0 }

module _ {K Row : Type 0} ⦃e : Eq K⦄ where
  -- what `get` does with the entry that it found
  pub serve : ℕ → K → Option (Entry Row) → Cache K Row → Option (Result Row) × Cache K Row
  serve now key none c = (none, record c { misses = c.misses + 1 })
  serve now key (some x) c =
      if ltb c.ttl (now - x.stamp)
      then (
        none,
        record c {
          entries = without key c.entries;
          weight = c.weight - x.rows_held;
          misses = c.misses + 1;
        },
      )
      else (some x.result, record c { entries = move_to_end key c.entries; hits = c.hits + 1 })

  unfoldable pub get : ℕ → K → Cache K Row → Option (Result Row) × Cache K Row
  unfolding serve
  get now key c = serve now key (lookup key c.entries) c

  -- `self._data.pop(key, None)` and the old entry's weight
  pub drop_old : K → Option (Entry Row) → Cache K Row → Cache K Row
  drop_old key none c = c
  drop_old key (some old) c = record c {
    entries = without key c.entries;
    weight = c.weight - old.rows_held;
  }

  -- The new entry goes to the end, and the oldest ones leave until both bounds hold.
  pub store : ℕ → K → Result Row → Cache K Row → Cache K Row
  unfolding evict
  store now key result c =
      let all =
        c.entries
        ++ (key, record { stamp = now; result = result; rows_held = row_count result }) ∷ [] in
      evict all (record c { weight = c.weight + row_count result })

  unfoldable pub put : ℕ → K → Result Row → Cache K Row → Cache K Row
  unfolding drop_old store
  put now key result c =
      if ltb max_cached_rows (row_count result) || ltb c.max_weight (row_count result)
      then record c { oversize_skips = c.oversize_skips + 1 }
      else store now key result (drop_old key (lookup key c.entries) c)

module _ {Row : Type 0} (le : String → String → Bool) where
  unfoldable pub get_query : ℕ → Query → Cache Key Row → Option (Result Row) × Cache Key Row
  unfolding get make_key
  get_query now q c = get now (make_key le q) c

  unfoldable pub put_query : ℕ → Query → Result Row → Cache Key Row → Cache Key Row
  unfolding put make_key
  put_query now q r c = put now (make_key le q) r c
