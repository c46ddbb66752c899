-- ===== src/QueryCache/Eviction.antt =====
-- messaging/query_cache.py: which entries a store evicts.
use sqtseries.Prelude.{
  ℕ, zero, suc, ◌≤◌, ◌<◌, ◌≡◌, refl, ◌⊎◌, inl, inr, true, List, [], ◌∷◌, ◌++◌, arith, Bool-cases,
  Eq, nat_eq, string_eq, length, drop,
}
use sqtseries.Dict.{lookup, without, total, total-append, without_absent}
use sqtseries.QueryCache.Keys.{Result, row_count}
use sqtseries.QueryCache.{Cache, Entry, evict, put, over, drop_old, store, max_cached_rows}
use sqtseries.QueryCache.Bounds.{IsValid, held, drop_old-IsValid}

-- The entries `d` break a bound.
abbrev pub Exceeds : {K Row : Type 0} → ℕ → ℕ → List (K × Entry Row) → Type 0
Exceeds maxsize max_weight d = (maxsize < length d) ⊎ (max_weight < total held d)

-- `kept` is what is left of `d` when entries leave from the front while a bound is broken.
abbrev pub IsTrimmed :
    {K Row : Type 0} → ℕ → ℕ → List (K × Entry Row) → List (K × Entry Row) → Type 0
IsTrimmed maxsize max_weight d kept =
    (n : ℕ) × (kept ≡ drop n d) × ((m : ℕ) → m < n → Exceeds maxsize max_weight (drop m d))

module _ {K Row : Type 0} where
  over-Exceeds :
      (d : List (K × Entry Row)) (c : Cache K Row)
      → c.weight ≡ total held d
      → over c d ≡ true
      → Exceeds c.maxsize c.max_weight d
  over-Exceeds d c w h = ground arith

  IsTrimmed-more :
      (maxsize max_weight : ℕ) (p : K × Entry Row) (d kept : List (K × Entry Row))
      → Exceeds maxsize max_weight (p ∷ d)
      → IsTrimmed maxsize max_weight d kept
      → IsTrimmed maxsize max_weight (p ∷ d) kept
  IsTrimmed-more maxsize max_weight p d kept first (n, same, before) = (suc n, same, all)
    where
      all : (m : ℕ) → m < suc n → Exceeds maxsize max_weight (drop m (p ∷ d))
      all zero h = first
      all (suc m) h = before m (omega arith)

  evict-IsTrimmed :
      (d : List (K × Entry Row)) (c : Cache K Row)
      → c.weight ≡ total held d
      → IsTrimmed c.maxsize c.max_weight d (evict d c).entries
  unfolding evict
  evict-IsTrimmed [] c w = (0, refl, λ m h. absurd (omega arith))
  evict-IsTrimmed (p ∷ d) c w = elim (Bool-cases (over c (p ∷ d))) [
    | inl more ↦ rw more (
        IsTrimmed-more c.maxsize c.max_weight p d _ (over-Exceeds (p ∷ d) c w more)
          (evict-IsTrimmed d _ (omega arith)))
    | inr done ↦ rw done (0, refl, λ m h. absurd (omega arith))
  ]

module _ {K Row : Type 0} ⦃e : Eq K⦄ where
  entries-drop_old :
      (key : K) (c : Cache K Row)
      → ((drop_old key (lookup key c.entries) c).entries ≡ without key c.entries)
        × ((drop_old key (lookup key c.entries) c).max_weight ≡ c.max_weight)
        × ((drop_old key (lookup key c.entries) c).maxsize ≡ c.maxsize)
  unfolding drop_old
  entries-drop_old key c = ground (arith, without_absent key c.entries)

  store-IsTrimmed :
      (now : ℕ) (key : K) (r : Result Row) (c : Cache K Row)
      → IsValid c
      → IsTrimmed c.maxsize c.max_weight
          (c.entries ++ (key, record { stamp = now; result = r; rows_held = row_count r }) ∷ [])
          (store now key r c).entries
  unfolding store
  store-IsTrimmed now key r c v =
      let new : Entry Row = record { stamp = now; result = r; rows_held = row_count r } in
      evict-IsTrimmed (c.entries ++ (key, new) ∷ []) _
        (omega (arith, total-append held c.entries ((key, new) ∷ []), v.counted))

  put-store :
      (now : ℕ) (key : K) (r : Result Row) (c : Cache K Row)
      → row_count r ≤ max_cached_rows
      → row_count r ≤ c.max_weight
      → put now key r c ≡ store now key r (drop_old key (lookup key c.entries) c)
  unfolding put
  put-store now key r c small fits = ground arith

  -- Storing a result of at most `max_cached_rows` and at most `max_weight` rows in a valid cache
  -- takes the key's old entry out, appends the new one, and evicts the least recently used entries
  -- and no more of them than the bounds ask for: as long as an entry is evicted, what is left
  -- before it goes is more than `maxsize` entries or more than `max_weight` rows.
  pub put-IsTrimmed :
      (now : ℕ) (key : K) (r : Result Row) (c : Cache K Row)
      → IsValid c
      → row_count r ≤ max_cached_rows
      → row_count r ≤ c.max_weight
      → IsTrimmed c.maxsize c.max_weight
          (without key c.entries
            ++ (key, record { stamp = now; result = r; rows_held = row_count r }) ∷ [])
          (put now key r c).entries
  unfolding drop_old
  put-IsTrimmed now key r c v small fits =
      let (same, same_weight, same_size) = entries-drop_old key c in
      let trimmed =
        store-IsTrimmed now key r (drop_old key (lookup key c.entries) c)
          (drop_old-IsValid key c v) in
      rw (put-store now key r c small fits)
        (rw same at (rw same_weight at (rw same_size at trimmed)))
