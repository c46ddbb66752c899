-- ===== src/QueryCache/Hits.antt =====
-- messaging/query_cache.py: a lookup after a store.
use sqtseries.Prelude.{
  ℕ, ◌+◌, ◌-◌, ◌≤◌, ◌≡◌, refl, inl, inr, none, some, List, [], ◌∷◌, ◌++◌, arith, Bool-cases, Eq,
  nat_eq, string_eq,
}
use sqtseries.Dict.{lookup, total, total-append, lookup-append}
use sqtseries.QueryCache.Keys.{Result, row_count}
use sqtseries.QueryCache.{Cache, Entry, evict, get, put, over, drop_old, store, max_cached_rows}
use sqtseries.QueryCache.Bounds.{IsValid, held, lookup-drop_old, drop_old-IsValid}

module _ {K Row : Type 0} ⦃e : Eq K⦄ where
  pub ttl-evict : (d : List (K × Entry Row)) (c : Cache K Row) → (evict d c).ttl ≡ c.ttl
  unfolding evict
  ttl-evict [] c = refl
  ttl-evict ((k, x) ∷ d) c = ground (
    arith,
    ttl-evict d (record c {
      weight = c.weight - x.rows_held;
      evicted_weight = c.evicted_weight + x.rows_held;
    }),
  )

  -- The newest entry stays, if it fits alone.
  evict-newest :
      (d : List (K × Entry Row)) (k : K) (x : Entry Row) (c : Cache K Row)
      → lookup k d ≡ none
      → c.weight ≡ total held (d ++ (k, x) ∷ [])
      → x.rows_held ≤ c.max_weight
      → 1 ≤ c.maxsize
      → lookup k (evict (d ++ (k, x) ∷ []) c).entries ≡ some x
  unfolding evict lookup
  evict-newest [] k x c absent w fits room = ground (arith, e.beq_iff k k)
  evict-newest ((j, y) ∷ d) k x c absent w fits room =
      elim (Bool-cases (over c ((j, y) ∷ d ++ (k, x) ∷ []))) [
        | inl more ↦ rw more (evict-newest d k x _ (ground arith) (omega arith) fits room)
        | inr done ↦ rw done (ground (arith, lookup-append k d ((k, x) ∷ []), e.beq_iff k k))
      ]

  pub max_weight-drop_old :
      (key : K) (c : Cache K Row)
      → ((drop_old key (lookup key c.entries) c).max_weight ≡ c.max_weight)
        × ((drop_old key (lookup key c.entries) c).maxsize ≡ c.maxsize)
        × ((drop_old key (lookup key c.entries) c).ttl ≡ c.ttl)
  unfolding drop_old
  max_weight-drop_old key c = ground arith

  store-newest :
      (stored : ℕ) (key : K) (r : Result Row) (c : Cache K Row)
      → IsValid c
      → lookup key c.entries ≡ none
      → 1 ≤ c.maxsize
      → row_count r ≤ c.max_weight
      → (lookup key (store stored key r c).entries
          ≡ some (record { stamp = stored; result = r; rows_held = row_count r }))
        × ((store stored key r c).ttl ≡ c.ttl)
  unfolding store
  store-newest stored key r c v absent room fits =
      let new : Entry Row = record { stamp = stored; result = r; rows_held = row_count r } in
      (
        evict-newest c.entries key new _ absent
            (omega (arith, total-append held c.entries ((key, new) ∷ []), v.counted)) fits room,
        ttl-evict (c.entries ++ (key, new) ∷ []) _,
      )

  -- A result of at most `max_cached_rows` and at most `max_weight` rows, stored in a valid cache
  -- that may hold an entry, is what a lookup of its key returns while it is not older than the
  -- time to live.
  pub get-put_self :
      (stored now : ℕ) (key : K) (r : Result Row) (c : Cache K Row)
      → IsValid c
      → 1 ≤ c.maxsize
      → row_count r ≤ max_cached_rows
      → row_count r ≤ c.max_weight
      → now ≤ stored + c.ttl
      → (get now key (put stored key r c)).0 ≡ some r
  unfolding get put
  get-put_self stored now key r c v room small fits fresh =
      let (same_weight, same_size, same_ttl) = max_weight-drop_old key c in
      let (found, ttl_kept) =
        store-newest stored key r (drop_old key (lookup key c.entries) c) (drop_old-IsValid key c v)
          (lookup-drop_old key c) (omega arith) (omega arith) in
      ground (arith, found, ttl_kept)
