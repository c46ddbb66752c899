-- ===== src/Series.antt =====
-- engine/store.py: the registry of series, a table of ids with their metric and tags, and the two
-- bounded caches before it. A new row has the id after the largest: the ids are AUTOINCREMENT, and
-- no row of the table is ever deleted but by a transaction that rolls back, with its counter.
pub mod Lru
pub mod Resolved
use sqtseries.Prelude.{
  ℕ, zero, suc, ◌+◌, ◌-◌, ◌*◌, ◌/◌, ◌%◌, ◌^◌, ◌≤◌, ◌<◌, min, max, String, ◌≡◌, refl, sym, ap, ◌∙◌,
  ◌≢◌, ◌↔◌, ◌⊎◌, inl, inr, Bool, true, false, ◌&&◌, ◌||◌, not, Option, none, some, List, [], ◌∷◌,
  ◌++◌, map, arith, ltb, leb, ◌==◌, if◌then◌else◌, ltb→lt, lt→ltb, leb→le, ==_iff, Bool-cases,
  Option-cases, Eq, eq_of_discrete, string_discrete, pair_eq, option_eq, nat_eq, string_eq, length,
  take, drop, keep, length-append, length-take, length-drop, length-keep-le, All, All-append,
}
use sqtseries.Prelude.Text.{Text, text_eq}
use sqtseries.Dict.{lookup, assign, without, move_to_end}

-- `_LRUCache.get`: the value, and the cache with the key at its end
unfoldable pub lru_get : {K V : Type 0} ⦃e : Eq K⦄ → K → List (K × V) → List (K × V) × Option V
unfolding lookup move_to_end
lru_get k d = elim (lookup k d) [ none ↦ (d, none) | some v ↦ (move_to_end k d, some v) ]

-- `_LRUCache.put`: the oldest entries over the size go
unfoldable pub lru_put : {K V : Type 0} ⦃e : Eq K⦄ → ℕ → K → V → List (K × V) → List (K × V)
unfolding assign move_to_end
lru_put maxsize k v d =
    let grown = assign k v (move_to_end k d) in drop (length grown - maxsize) grown

-- the metric and the tags as JSON
abbrev pub SeriesKey : Type 0
SeriesKey = Text × Option Text

instance abbrev pub tags_eq : Eq (Option Text)
tags_eq = option_eq

instance abbrev pub series_key_eq : Eq SeriesKey
series_key_eq = pair_eq

pub record Store : Type 0 where
  pub series : List (ℕ × SeriesKey)
  pub series_cache : List (SeriesKey × ℕ)
  pub id_cache : List (ℕ × SeriesKey)
  pub cache_size : ℕ

-- `SELECT series_id FROM series WHERE metric = ? AND tags IS ?`
unfoldable pub find : SeriesKey → List (ℕ × SeriesKey) → Option ℕ
find key [] = none
find key ((sid, other) ∷ series) =
    let rest = find key series in if series_key_eq.beq other key then some sid else rest

unfoldable pub last_id : List (ℕ × SeriesKey) → ℕ
last_id [] = 0
last_id ((sid, key) ∷ series) = max sid (last_id series)

-- the two `put`s at the end of `resolve_series`
unfoldable pub remember : SeriesKey → ℕ → Store → Store
unfolding lru_put
remember key sid store = record store {
  series_cache = lru_put store.cache_size key sid store.series_cache;
  id_cache = lru_put store.cache_size sid key store.id_cache;
}

-- what happens when the cache has no id; `none` is SeriesNotFoundError
unfoldable pub resolve_missing : Bool → SeriesKey → Store → Option (Store × ℕ)
unfolding find last_id remember
resolve_missing create key store = elim (find key store.series) [
  | some sid ↦ some (remember key sid store, sid)
  | none ↦
      let sid = last_id store.series + 1 in
      if create
      then some (remember key sid (record store { series = store.series ++ (sid, key) ∷ [] }), sid)
      else none
]

unfoldable pub resolve_series : Bool → SeriesKey → Store → Option (Store × ℕ)
unfolding resolve_missing lru_get
resolve_series create key store =
    let (cache, cached) = lru_get key store.series_cache in
    let store' = record store { series_cache = cache } in
    elim cached [ some sid ↦ some (store', sid) | none ↦ resolve_missing create key store' ]

-- A transaction that fails takes its rows back; the caches are no part of it.
unfoldable pub roll_back : Store → Store → Store
roll_back before after = record after { series = before.series }
