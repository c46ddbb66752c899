-- ===== src/QueryCache/Bounds.antt =====
-- messaging/query_cache.py: the bookkeeping of weight and size over sequences of calls.
use sqtseries.Prelude.{
  ℕ, ◌+◌, ◌≤◌, ◌≡◌, refl, inl, inr, none, some, List, [], ◌∷◌, ◌++◌, arith, Bool-cases,
  Option-cases, Eq, nat_eq, string_eq, length, length-append, All, All-append,
}
use sqtseries.Dict.{
  lookup, without, move_to_end, IsDict, total, total-append, total-without, length-without,
  without-IsDict, append-IsDict, renew-IsDict, renew-All, lookup-All, lookup-without_self,
  All-without, move_to_end-renew,
}
use sqtseries.QueryCache.Keys.{Result, row_count}
use sqtseries.QueryCache.{Cache, Entry, init, evict, clear, get, put, over, drop_old, store}

-- The rows that an entry counts are the rows of its result.
abbrev pub IsHonest : {K Row : Type 0} → K × Entry Row → Type 0
IsHonest p = p.1.rows_held ≡ row_count p.1.result

abbrev pub held : {Row : Type 0} → Entry Row → ℕ
held x = x.rows_held

pub record IsValid {K Row : Type 0} ⦃e : Eq K⦄ (c : Cache K Row) : Type 0 where
  pub distinct : IsDict c.entries
  pub honest : All IsHonest c.entries
  pub counted : c.weight ≡ total held c.entries
  pub few : length c.entries ≤ c.maxsize
  pub light : c.weight ≤ c.max_weight

module _ {K Row : Type 0} ⦃e : Eq K⦄ where
  evict-IsValid :
      (d : List (K × Entry Row)) (c : Cache K Row)
      → IsDict d
      → All IsHonest d
      → c.weight ≡ total held d
      → IsValid (evict d c)
  unfolding evict
  evict-IsValid [] c u h w = ground arith
  evict-IsValid ((k, x) ∷ d) c u h w = elim (Bool-cases (over c ((k, x) ∷ d))) [
    | inl more ↦ rw more (evict-IsValid d _ u.1 h.1 (omega arith))
    | inr done ↦ rw done (ground arith)
  ]

  moved-IsValid :
      (key : K) (x : Entry Row) (c : Cache K Row)
      → IsValid c
      → lookup key c.entries ≡ some x
      → IsValid (record c { entries = move_to_end key c.entries; hits = c.hits + 1 })
  moved-IsValid key x c v h = rw (move_to_end-renew key x c.entries h) (record {
    distinct = renew-IsDict key x c.entries v.distinct;
    honest =
        renew-All IsHonest key x c.entries v.honest
          (lookup-All IsHonest key x c.entries v.honest h);
    counted = omega (
      arith,
      total-append held (without key c.entries) ((key, x) ∷ []),
      total-without held key x c.entries v.distinct h,
      v.counted,
    );
    few = omega (
      arith,
      length-append (without key c.entries) ((key, x) ∷ []),
      length-without key x c.entries v.distinct h,
      v.few,
    );
    light = v.light;
  })

  pub get-IsValid : (now : ℕ) (key : K) (c : Cache K Row) → IsValid c → IsValid (get now key c).1
  unfolding get
  get-IsValid now key c v = elim (Option-cases (lookup key c.entries)) [
    | inl h ↦ rw h (ground arith)
    | inr (x, h) ↦
        let fewer = length-without key x c.entries v.distinct h in
        let lighter = total-without held key x c.entries v.distinct h in
        rw h (
          ground (
            arith,
            without-IsDict key c.entries v.distinct,
            All-without IsHonest key c.entries v.honest,
            moved-IsValid key x c v h,
          ))
  ]

  pub drop_old-IsValid :
      (key : K) (c : Cache K Row) → IsValid c → IsValid (drop_old key (lookup key c.entries) c)
  unfolding drop_old
  drop_old-IsValid key c v = elim (Option-cases (lookup key c.entries)) [
    | inl h ↦ rw (h, drop_old) v
    | inr (x, h) ↦
        let fewer = length-without key x c.entries v.distinct h in
        let lighter = total-without held key x c.entries v.distinct h in
        rw (h, drop_old)
          (ground (
            arith,
            without-IsDict key c.entries v.distinct,
            All-without IsHonest key c.entries v.honest,
          ))
  ]

  pub lookup-drop_old :
      (key : K) (c : Cache K Row)
      → lookup key (drop_old key (lookup key c.entries) c).entries ≡ none
  unfolding drop_old
  lookup-drop_old key c = ground (arith, lookup-without_self key c.entries)

  store-IsValid :
      (now : ℕ) (key : K) (r : Result Row) (c : Cache K Row)
      → IsValid c
      → lookup key c.entries ≡ none
      → IsValid (store now key r c)
  unfolding store
  store-IsValid now key r c v h =
      let new : Entry Row = record { stamp = now; result = r; rows_held = row_count r } in
      evict-IsValid (c.entries ++ (key, new) ∷ []) _ (append-IsDict key new c.entries v.distinct h)
        (All-append IsHonest c.entries ((key, new) ∷ []) v.honest (refl, tt))
        (omega (arith, total-append held c.entries ((key, new) ∷ []), v.counted))

  pub put-IsValid :
      (now : ℕ) (key : K) (r : Result Row) (c : Cache K Row) → IsValid c → IsValid (put now key r c)
  unfolding put
  put-IsValid now key r c v =
      let kept = store-IsValid now key r _ (drop_old-IsValid key c v) (lookup-drop_old key c) in
      ground (arith, kept)

  pub clear-IsValid : (c : Cache K Row) → IsValid c → IsValid (clear c)
  unfolding clear
  clear-IsValid c v = ground arith

-- The calls that a client makes of a cache.
pub data Call (K Row : Type 0) : Type 0 where
  get_call : ℕ → K → Call K Row
  put_call : ℕ → K → Result Row → Call K Row
  clear_call : Call K Row

module _ {K Row : Type 0} ⦃e : Eq K⦄ where
  unfoldable pub call : Call K Row → Cache K Row → Cache K Row
  unfolding get put clear
  call (get_call now key) c = (get now key c).1
  call (put_call now key r) c = put now key r c
  call clear_call c = clear c

  unfoldable pub run : List (Call K Row) → Cache K Row → Cache K Row
  unfolding call
  run [] c = c
  run (x ∷ calls) c = run calls (call x c)

  call-IsValid : (x : Call K Row) (c : Cache K Row) → IsValid c → IsValid (call x c)
  unfolding call
  call-IsValid (get_call now key) c v = get-IsValid now key c v
  call-IsValid (put_call now key r) c v = put-IsValid now key r c v
  call-IsValid clear_call c v = clear-IsValid c v

  run-keeps : (calls : List (Call K Row)) (c : Cache K Row) → IsValid c → IsValid (run calls c)
  unfolding run
  run-keeps [] c v = v
  run-keeps (x ∷ calls) c v = run-keeps calls (call x c) (call-IsValid x c v)

  -- After any sequence of gets, puts and clears on a new cache, whatever the clock readings, the
  -- keys are distinct, the recorded weight is the sum of the row counts of the entries, every entry
  -- counts the rows of its own result, there are at most `maxsize` entries and the weight is at
  -- most `max_weight`.
  pub run-IsValid :
      (calls : List (Call K Row)) (maxsize ttl max_weight : ℕ)
      → IsValid (run calls (init maxsize ttl max_weight))
  run-IsValid calls maxsize ttl max_weight =
      run-keeps calls (init maxsize ttl max_weight) (unfold init in omega arith)
