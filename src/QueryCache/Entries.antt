-- ===== src/QueryCache/Entries.antt =====
-- messaging/query_cache.py: what holds of every entry of a cache.
use sqtseries.Prelude.{
  ℕ, ◌+◌, ◌-◌, ◌≤◌, ◌≡◌, refl, sym, ◌∙◌, inl, inr, Bool, ◌||◌, Option, none, some, List, [], ◌∷◌,
  ◌++◌, arith, ltb, Bool-cases, Eq, nat_eq, string_eq, All, All-append,
}
use sqtseries.Dict.{lookup, move_to_end-renew, All-without, renew-All, lookup-All}
use sqtseries.QueryCache.Keys.{Result, row_count}
use sqtseries.QueryCache.{
  Entry, Cache, evict, serve, get, drop_old, store, put, over, max_cached_rows,
}
use sqtseries.QueryCache.Hits.{ttl-evict, max_weight-drop_old}
use mathlib.Core.Path.{subst}

module _ {K Row : Type 0} (P : K × Entry Row → Type 0) where
  All-evict : (d : List (K × Entry Row)) (c : Cache K Row) → All P d → All P (evict d c).entries
  unfolding evict
  All-evict [] c h = tt
  All-evict ((k, x) ∷ d) c h = elim (Bool-cases (over c ((k, x) ∷ d))) [
    | inl more ↦ rw more (All-evict d _ h.1)
    | inr done ↦ rw done h
  ]

module _ {K Row : Type 0} ⦃e : Eq K⦄ (P : K × Entry Row → Type 0) where
  All-drop_old :
      (key : K) (o : Option (Entry Row)) (c : Cache K Row)
      → All P c.entries
      → All P (drop_old key o c).entries
  unfolding drop_old
  All-drop_old key none c h = h
  All-drop_old key (some old) c h = All-without P key c.entries h

  -- what a lookup keeps, and what it serves
  pub All-get :
      (now : ℕ) (key : K) (c : Cache K Row)
      → All P c.entries
      → All P (get now key c).1.entries × ((get now key c).1.ttl ≡ c.ttl)
  unfolding get serve
  All-get now key c h = found (lookup key c.entries) refl
    where
      found :
          (o : Option (Entry Row))
          → lookup key c.entries ≡ o
          → All P (serve now key o c).1.entries × ((serve now key o c).1.ttl ≡ c.ttl)
      found none q = (h, refl)
      found (some x) q = elim (Bool-cases (ltb c.ttl (now - x.stamp))) [
        | inl old ↦ rw old (All-without P key c.entries h, refl)
        | inr young ↦ rw young (
          (subst (All P) (sym (move_to_end-renew key x c.entries q))
              (renew-All P key x c.entries h (lookup-All P key x c.entries h q))),
          refl,
        )
      ]

  pub get-served :
      (now : ℕ) (key : K) (r : Result Row) (c : Cache K Row)
      → All P c.entries
      → (get now key c).0 ≡ some r
      → (x : Entry Row) × P (key, x) × (x.result ≡ r) × (now ≤ x.stamp + c.ttl)
  unfolding get serve
  get-served now key r c h = found (lookup key c.entries) refl
    where
      found :
          (o : Option (Entry Row))
          → lookup key c.entries ≡ o
          → (serve now key o c).0 ≡ some r
          → (x : Entry Row) × P (key, x) × (x.result ≡ r) × (now ≤ x.stamp + c.ttl)
      found none q s = absurd (ground (arith, s))
      found (some x) q s =
          (x, lookup-All P key x c.entries h q, ground (arith, s), ground (arith, s))

  pub All-put :
      (now : ℕ) (key : K) (r : Result Row) (c : Cache K Row)
      → All P c.entries
      → P (key, record { stamp = now; result = r; rows_held = row_count r })
      → All P (put now key r c).entries × ((put now key r c).ttl ≡ c.ttl)
  unfolding put store
  All-put now key r c h p = elim (Bool-cases too_large) [
    | inl big ↦ rw big (h, refl)
    | inr small ↦ rw small (
      All-evict P (dropped.entries ++ (key, entry) ∷ []) _
          (All-append P dropped.entries ((key, entry) ∷ []) kept (p, tt)),
      ttl-evict (dropped.entries ++ (key, entry) ∷ []) _ ∙ (max_weight-drop_old key c).2,
    )
  ]
    where
      entry : Entry Row
      entry = record { stamp = now; result = r; rows_held = row_count r }

      too_large : Bool
      too_large = ltb max_cached_rows (row_count r) || ltb c.max_weight (row_count r)

      dropped : Cache K Row
      dropped = drop_old key (lookup key c.entries) c

      kept : All P dropped.entries
      kept = All-drop_old key (lookup key c.entries) c h
