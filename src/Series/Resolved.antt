-- ===== src/Series/Resolved.antt =====
-- engine/store.py: when the caches of the series registry agree with its table.
use mathlib.Core.Path.{subst}
use sqtseries.Prelude.{
  ℕ, ◌+◌, ◌<◌, ◌≡◌, refl, sym, ◌∙◌, inl, inr, true, none, some, List, [], ◌∷◌, ◌++◌, arith, ◌==◌,
  if◌then◌else◌, ==_iff, Bool-cases, Option-cases, nat_eq, string_eq,
}
use sqtseries.Prelude.Text.{text_eq}
use sqtseries.Dict.{lookup, IsDict, append-IsDict, lookup-append}
use sqtseries.Series.{
  Store, SeriesKey, series_key_eq, tags_eq, find, last_id, lru_get, remember, resolve_missing,
  resolve_series,
}
use sqtseries.Series.Lru.{lru_put-IsDict, lookup-lru_put, lru_get-IsDict, lookup-lru_get}

pub record IsFaithful (store : Store) : Type 0 where
  pub ids : IsDict store.series
  pub cache_keys : IsDict store.series_cache
  pub cache_ids : IsDict store.id_cache
  pub cached :
      (key : SeriesKey) (sid : ℕ)
      → lookup key store.series_cache ≡ some sid
      → find key store.series ≡ some sid
  pub named :
      (sid : ℕ) (key : SeriesKey)
      → lookup sid store.id_cache ≡ some key
      → lookup sid store.series ≡ some key

lookup-last_id :
    (sid : ℕ) (series : List (ℕ × SeriesKey)) → last_id series < sid → lookup sid series ≡ none
unfolding last_id lookup
lookup-last_id sid [] h = refl
lookup-last_id sid ((i, key) ∷ series) h = ground (arith, lookup-last_id sid series)

find-lookup :
    (key : SeriesKey) (sid : ℕ) (series : List (ℕ × SeriesKey))
    → IsDict series
    → find key series ≡ some sid
    → lookup sid series ≡ some key
unfolding find lookup
find-lookup key sid [] u h = cc
find-lookup key sid ((i, other) ∷ series) u h = elim (Bool-cases (series_key_eq.beq other key)) [
  | inl same ↦
      let h' : some i ≡ some sid = rw same at h in
      ground (arith, h', (series_key_eq.beq_iff other key).0 same)
  | inr differ ↦
      let later = find-lookup key sid series u.1 (rw differ at h) in
      elim (Bool-cases (i == sid)) [
        | inl same ↦
            let e : i ≡ sid = (==_iff i sid).0 same in
            let absent : lookup sid series ≡ none = subst (λ j. lookup j series ≡ none) e u.0 in
            cc (absent, later)
        | inr other_id ↦ rw other_id later
      ]
]

find-append :
    (key : SeriesKey) (series : List (ℕ × SeriesKey)) (sid : ℕ) (other : SeriesKey)
    → find key (series ++ (sid, other) ∷ []) ≡ elim (find key series) [
      | some i ↦ some i
      | none ↦ if series_key_eq.beq other key then some sid else none
    ]
unfolding find
find-append key [] sid other = refl
find-append key ((i, k) ∷ series) sid other = ground (arith, find-append key series sid other)

remember-IsFaithful :
    (key : SeriesKey) (sid : ℕ) (store : Store)
    → IsFaithful store
    → find key store.series ≡ some sid
    → IsFaithful (remember key sid store)
unfolding remember
remember-IsFaithful key sid store f found = record {
  ids = f.ids;
  cache_keys = lru_put-IsDict store.cache_size key sid store.series_cache f.cache_keys;
  cache_ids = lru_put-IsDict store.cache_size sid key store.id_cache f.cache_ids;
  cached = λ k i h. elim (Bool-cases (series_key_eq.beq key k)) [
    | inl same ↦
        let put = lookup-lru_put store.cache_size key k sid i store.series_cache f.cache_keys h in
        let same_key : key ≡ k = (series_key_eq.beq_iff key k).0 same in
        let same_id : some sid ≡ some i = rw same at put in
        subst (λ x. find x store.series ≡ some i) same_key (found ∙ same_id)
    | inr other ↦
        let put = lookup-lru_put store.cache_size key k sid i store.series_cache f.cache_keys h in
        f.cached k i (rw other at put)
  ];
  named = λ i k h.
      let put = lookup-lru_put store.cache_size sid i key k store.id_cache f.cache_ids h in
      elim (Bool-cases (sid == i)) [
        | inl same ↦
            let same_id : sid ≡ i = (==_iff sid i).0 same in
            let same_key : some key ≡ some k = rw same at put in
            subst (λ x. lookup x store.series ≡ some k) same_id
              (find-lookup key sid store.series f.ids found ∙ same_key)
        | inr other ↦ f.named i k (rw other at put)
      ];
}

-- A row that is added for a series that has none.
added-IsFaithful :
    (key : SeriesKey) (store : Store)
    → IsFaithful store
    → find key store.series ≡ none
    → IsFaithful (record store { series = store.series ++ (last_id store.series + 1, key) ∷ [] })
added-IsFaithful key store f absent =
    let sid : ℕ = last_id store.series + 1 in
    let free = lookup-last_id sid store.series (omega arith) in
    record {
      ids = append-IsDict sid key store.series f.ids free;
      cache_keys = f.cache_keys;
      cache_ids = f.cache_ids;
      cached = λ k i h. find-append k store.series sid key ∙ rw (f.cached k i h) refl;
      named = λ i k h. lookup-append i store.series ((sid, key) ∷ []) ∙ rw (f.named i k h) refl;
    }

resolve_missing-IsFaithful :
    (key : SeriesKey) (store : Store)
    → IsFaithful store
    → (store' : Store) × (sid : ℕ) × (resolve_missing true key store ≡ some (store', sid))
      × IsFaithful store'
      × (find key store'.series ≡ some sid)
unfolding resolve_missing remember
resolve_missing-IsFaithful key store f = elim (Option-cases (find key store.series)) [
  | inr (sid, found) ↦ (
    remember key sid store,
    sid,
    rw (found, resolve_missing) refl,
    remember-IsFaithful key sid store f found,
    found,
  )
  | inl absent ↦
      let sid : ℕ = last_id store.series + 1 in
      let grown : Store = record store { series = store.series ++ (sid, key) ∷ [] } in
      let here : find key grown.series ≡ some sid =
        find-append key store.series sid key
        ∙ rw (absent, (series_key_eq.beq_iff key key).1 refl) refl in
      (
        remember key sid grown,
        sid,
        rw (absent, resolve_missing) refl,
        remember-IsFaithful key sid grown (added-IsFaithful key store f absent) here,
        here,
      )
]

-- Where the caches agree with the table, resolving a series that may be created succeeds, gives the
-- id under which the table has it afterwards, both by the series and by the id, and leaves the
-- caches in agreement with the table.
pub resolve_series-IsFaithful :
    (key : SeriesKey) (store : Store)
    → IsFaithful store
    → (store' : Store) × (sid : ℕ) × (resolve_series true key store ≡ some (store', sid))
      × IsFaithful store'
      × (find key store'.series ≡ some sid)
      × (lookup sid store'.series ≡ some key)
unfolding resolve_series
resolve_series-IsFaithful key store f =
    let moved : Store = record store { series_cache = (lru_get key store.series_cache).0 } in
    let kept : IsFaithful moved = record {
      ids = f.ids;
      cache_keys = lru_get-IsDict key store.series_cache f.cache_keys;
      cache_ids = f.cache_ids;
      cached = λ k i h. f.cached k i (sym ((lookup-lru_get key k store.series_cache).0) ∙ h);
      named = f.named;
    } in
    let answer = (lookup-lru_get key key store.series_cache).1 in
    elim (Option-cases (lookup key store.series_cache)) [
      | inr (sid, hit) ↦
          let found = f.cached key sid hit in
          (
            moved,
            sid,
            rw (answer ∙ hit, resolve_series) refl,
            kept,
            found,
            find-lookup key sid store.series f.ids found,
          )
      | inl miss ↦
          let (store', sid, run, faithful, found) = resolve_missing-IsFaithful key moved kept in
          (
            store',
            sid,
            rw (answer ∙ miss, resolve_series) run,
            faithful,
            found,
            find-lookup key sid store'.series faithful.ids found,
          )
    ]
