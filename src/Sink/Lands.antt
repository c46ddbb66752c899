-- ===== src/Sink/Lands.antt =====
-- service.py: a batch of series that the table has.
use sqtseries.Prelude.{
  ℕ, zero, suc, ◌+◌, ◌≤◌, ◌<◌, ◌≡◌, refl, sym, ap, ◌∙◌, ◌≢◌, inl, inr, true, Option, none, some,
  List, [], ◌∷◌, map, arith, nat_eq, string_eq, length, take, All, Option-cases, length-map,
}
use mathlib.Core.Path.{subst}
use sqtseries.Rollup.{Row, Db}
use sqtseries.Rollup.Writes.{insert_many}
use sqtseries.Series.{
  Store, SeriesKey, series_key_eq, find, lru_get, remember, resolve_missing, resolve_series,
  roll_back,
}
use sqtseries.Series.Resolved.{IsFaithful, resolve_series-IsFaithful}
use sqtseries.Sink.{
  Tally, Point, Engine, Outcome, inserted, struck, failed, resolve_points, abandon, insert_resolved,
  insert_points, tallied, attempts, sink,
}
use sqtseries.Sink.Accounts.{count-insert_many}

abbrev pub Known : {V : Type 0} → List (ℕ × SeriesKey) → Point V → Type 0
Known series p = (sid : ℕ) × (find p.key series ≡ some sid)

All-take : {A : Type 0} (P : A → Type 0) (n : ℕ) (xs : List A) → All P xs → All P (take n xs)
All-take P zero xs h = tt
All-take P (suc n) [] h = tt
All-take P (suc n) (x ∷ xs) h = (h.0, All-take P n xs h.1)

-- a series that the table has is not created again
resolve_series-Known :
    (key : SeriesKey) (sid sid' : ℕ) (store store' : Store)
    → find key store.series ≡ some sid
    → resolve_series true key store ≡ some (store', sid')
    → store'.series ≡ store.series
unfolding resolve_series resolve_missing remember
resolve_series-Known key sid sid' store store' found e =
    elim (Option-cases (lru_get key store.series_cache).1) [
      | inr (hit, cached) ↦ ground (arith, e, cached)
      | inl miss ↦ ground (arith, e, miss, found)
    ]

module _ {V : Type 0} where
  -- the row of a point with the id of its series
  abbrev pub row_for : List (ℕ × SeriesKey) → Point V → Row V
  row_for series p = record {
    sid = elim (find p.key series) [ none ↦ 0 | some sid ↦ sid ];
    ts = p.ts;
    value = p.value;
  }

  resolve_points-Known :
      (series : List (ℕ × SeriesKey)) (points : List (Point V)) (store : Store)
      → IsFaithful store
      → store.series ≡ series
      → All (Known series) points
      → (store' : Store) × (resolve_points points store
          ≡ some (store', map (row_for series) points))
        × IsFaithful store'
        × (store'.series ≡ series)
  unfolding resolve_points
  resolve_points-Known series [] store f same known = (store, refl, f, same)
  resolve_points-Known series (p ∷ points) store f same ((sid, found), known) =
      let (store1, sid1, run, f1, found1, named) = resolve_series-IsFaithful p.key store f in
      let found' : find p.key store.series ≡ some sid = ap (find p.key) same ∙ found in
      let same1 = resolve_series-Known p.key sid sid1 store store1 found' run ∙ same in
      let (store2, rest, f2, same2) = resolve_points-Known series points store1 f1 same1 known in
      let here : find p.key series ≡ some sid1 = sym (ap (find p.key) same1) ∙ found1 in
      (store2, rw (run, resolve_points) (rw (rest, here) refl), f2, same2)

  abandon-Known :
      (points : List (Point V)) (e : Engine V)
      → IsFaithful e.store
      → All (Known e.store.series) points
      → IsFaithful (abandon points e).store
        × ((abandon points e).store.series ≡ e.store.series)
        × ((abandon points e).db ≡ e.db)
  unfolding abandon roll_back
  abandon-Known points e f known =
      let (store', run, f', same) =
        resolve_points-Known e.store.series points e.store f refl known in
      rw (run, abandon) (subst (λ s. IsFaithful (record store' { series = s })) same f', refl, refl)

  -- the batch is there, under the ids of its series, and counted
  pub record IsIn (points : List (Point V)) (db' : Db V) (e : Engine V) (t : Tally)
      (s : Engine V × Tally) : Type 0 where
    pub tables : s.0.db ≡ db'
    pub series : s.0.store.series ≡ e.store.series
    pub caches : IsFaithful s.0.store
    pub persisted : s.1.persisted_count ≡ t.persisted_count + length points
    pub dropped : s.1.dropped_count ≡ t.dropped_count

  insert_points-Known :
      (points : List (Point V)) (e : Engine V) (db' : Db V) (n : ℕ) (t : Tally)
      → IsFaithful e.store
      → All (Known e.store.series) points
      → insert_many (map (row_for e.store.series) points) e.db ≡ some (db', n)
      → (store' : Store) × (insert_points none points e
          ≡ (record { store = store'; db = db' }, inserted n))
        × IsFaithful store'
        × (store'.series ≡ e.store.series)
        × (n ≡ length points)
  unfolding insert_points insert_resolved
  insert_points-Known points e db' n t f known good =
      let (store', run, f', same) =
        resolve_points-Known e.store.series points e.store f refl known in
      (
        store',
        rw run (rw (good, insert_resolved) refl),
        f',
        same,
        count-insert_many (map (row_for e.store.series) points) e.db db' n good
            ∙ length-map points (row_for e.store.series),
      )

  -- what follows an attempt that is not the last
  abbrev after_attempt :
      (ℕ → Option ℕ) → ℕ → ℕ → List (Point V) → Tally → Engine V × Outcome → Engine V × Tally
  after_attempt strikes attempt left points t (e', outcome) = elim outcome [
    | inserted n ↦ (e', tallied points (inserted n) t)
    | failed ↦ (e', tallied points failed t)
    | struck ↦
        attempts strikes (attempt + 1) left points e'
          (record t { sink_retry_count = t.sink_retry_count + 1 })
  ]

  attempts-free :
      (strikes : ℕ → Option ℕ) (attempt left : ℕ) (points : List (Point V)) (e e' : Engine V)
      (n : ℕ) (t : Tally)
      → strikes attempt ≡ none
      → insert_points none points e ≡ (e', inserted n)
      → attempts strikes attempt left points e t ≡ (e', tallied points (inserted n) t)
  unfolding attempts
  attempts-free strikes attempt zero points e e' n t free done =
      ap (λ r. (r.0, tallied points r.1 t)) (ap (λ o. insert_points o points e) free ∙ done)
  attempts-free strikes attempt (suc left) points e e' n t free done =
      ap (after_attempt strikes attempt left points t)
        (ap (λ o. insert_points o points e) free ∙ done)

  attempts-struck :
      (strikes : ℕ → Option ℕ) (attempt left k : ℕ) (points : List (Point V)) (e : Engine V)
      (t : Tally)
      → strikes attempt ≡ some k
      → attempts strikes attempt (suc left) points e t
        ≡ attempts strikes
            (attempt + 1)
            left
            points
            (abandon (take k points) e)
            (record t { sink_retry_count = t.sink_retry_count + 1 })
  unfolding attempts insert_points
  attempts-struck strikes attempt left k points e t strike =
      ap (λ o. after_attempt strikes attempt left points t (insert_points o points e)) strike

  free-IsIn :
      (strikes : ℕ → Option ℕ) (attempt left : ℕ) (points : List (Point V)) (e : Engine V)
      (db' : Db V) (n : ℕ) (t : Tally)
      → IsFaithful e.store
      → All (Known e.store.series) points
      → insert_many (map (row_for e.store.series) points) e.db ≡ some (db', n)
      → strikes attempt ≡ none
      → IsIn points db' e t (attempts strikes attempt left points e t)
  free-IsIn strikes attempt left points e db' n t f known good free =
      let (store', done, f', same, all) = insert_points-Known points e db' n t f known good in
      rw
        (attempts-free strikes attempt left points e (record { store = store'; db = db' }) n t free
          done)
        (record {
          tables = refl;
          series = same;
          caches = f';
          persisted = omega (arith, all);
          dropped = refl;
        })

  attempts-Known :
      (strikes : ℕ → Option ℕ) (attempt left j : ℕ) (points : List (Point V)) (e : Engine V)
      (db' : Db V) (n : ℕ) (t : Tally)
      → IsFaithful e.store
      → All (Known e.store.series) points
      → insert_many (map (row_for e.store.series) points) e.db ≡ some (db', n)
      → j ≤ left
      → strikes (attempt + j) ≡ none
      → IsIn points db' e t (attempts strikes attempt left points e t)
  attempts-Known strikes attempt left zero points e db' n t f known good few free =
      free-IsIn strikes attempt left points e db' n t f known good (ap strikes (omega arith) ∙ free)
  attempts-Known strikes attempt zero (suc j) points e db' n t f known good few free =
      absurd (omega (arith, few))
  attempts-Known strikes attempt (suc left) (suc j) points e db' n t f known good few free =
      elim (Option-cases (strikes attempt)) [
        | inl now ↦ free-IsIn strikes attempt (suc left) points e db' n t f known good now
        | inr (k, strike) ↦
            let e1 = abandon (take k points) e in
            let t1 : Tally = record t { sink_retry_count = t.sink_retry_count + 1 } in
            let (f1, same, rows) =
              abandon-Known (take k points) e f (All-take (Known e.store.series) k points known) in
            let known1 : All (Known e1.store.series) points =
              subst (λ s. All (Known s) points) (sym same) known in
            let good1 : insert_many (map (row_for e1.store.series) points) e1.db ≡ some (db', n) =
              ap (λ s. insert_many (map (row_for s) points) e1.db) same
              ∙ ap (insert_many (map (row_for e.store.series) points)) rows
              ∙ good in
            let later =
              attempts-Known strikes (attempt + 1) left j points e1 db' n t1 f1 known1 good1
                (omega (arith, few)) (ap strikes (omega arith) ∙ free) in
            rw (attempts-struck strikes attempt left k points e t strike) (record {
              tables = later.tables;
              series = later.series ∙ same;
              caches = later.caches;
              persisted = later.persisted;
              dropped = later.dropped;
            })
      ]

  -- Where the caches agree with the table of series, which has those of all points, the database is
  -- not struck at one of the four attempts, and it takes the rows of the points under the ids of
  -- their series: `_sink` leaves exactly these rows in it, whatever the attempts before have met,
  -- the series as they were, and caches that agree; all points are counted as persisted.
  pub sink_lands :
      (strikes : ℕ → Option ℕ) (j : ℕ) (points : List (Point V)) (e : Engine V) (db' : Db V)
      → (n : ℕ) (t : Tally) → points ≢ []
      → IsFaithful e.store
      → All (Known e.store.series) points
      → j < 4
      → strikes (1 + j) ≡ none
      → insert_many (map (row_for e.store.series) points) e.db ≡ some (db', n)
      → (s : Engine V × Tally) × (sink strikes points (some e, t) ≡ (some s.0, s.1))
        × IsIn points db' e t s
  unfolding sink
  sink_lands strikes j [] e db' n t full f known few free good = elim (full refl) [ ]
  sink_lands strikes j (p ∷ points) e db' n t full f known few free good = (
    attempts strikes 1 3 (p ∷ points) e t,
    refl,
    attempts-Known strikes 1 3 j (p ∷ points) e db' n t f known good (omega (arith, few)) free,
  )
