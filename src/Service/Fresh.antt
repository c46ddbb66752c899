-- ===== src/Service/Fresh.antt =====
-- service.py: the replies of `_query_handler` over a history of calls.
use sqtseries.Prelude.{
  ℕ, ◌+◌, ◌≤◌, String, ◌≡◌, refl, sym, ap, ◌∙◌, inl, inr, Bool, Option, none, some, List, [], ◌∷◌,
  ◌++◌, arith, Bool-cases, nat_eq, string_eq, All,
}
use sqtseries.QueryCache.{Entry, Cache, init, get, get_query, put_query}
use sqtseries.QueryCache.Keys.{Query, Key, Result, make_key, key_eq}
use sqtseries.QueryCache.Entries.{All-get, All-put, get-served}
use mathlib.Core.List.{append_assoc}
use sqtseries.Service.{
  Answer, answered, too_many_rows, invalid, Reply, ok, limit_ok, ask, after_cache, query_handler,
}

-- a call of the handler: the time, how long it takes, the facade if there is one, and the query
pub record Call (Row : Type 0) : Type 0 where
  pub now : ℕ
  pub took : ℕ
  pub facade : Option (Query → Answer Row)
  pub query : Query

module _ {Row : Type 0} where
  abbrev pub result_of : Answer Row → Option (Result Row)
  result_of (answered r) = some r
  result_of too_many_rows = none
  result_of invalid = none

  -- what the facade gives to a query
  abbrev pub own_answer : Option (Query → Answer Row) → Query → Option (Result Row)
  own_answer none q = none
  own_answer (some facade) q = result_of (facade q)

module _ {Row : Type 0} (le : String → String → Bool) where
  abbrev pub handle : Call Row → Cache Key Row → Cache Key Row × Reply Row
  unfolding query_handler
  handle call c = query_handler le call.facade call.now call.took call.query c

  unfoldable pub run : List (Call Row) → Cache Key Row → Cache Key Row
  run [] c = c
  run (call ∷ calls) c = run calls (handle call c).0

module _ {Row : Type 0} (le : String → String → Bool) (H : Call Row → Type 0) where
  -- An entry is the answer of a call of the history.
  IsFrom : Key × Entry Row → Type 0
  IsFrom (k, x) =
      (call : Call Row) × H call
      × (make_key le call.query ≡ k)
      × (call.now + call.took ≡ x.stamp)
      × (own_answer call.facade call.query ≡ some x.result)

  ask-keeps :
      (call : Call Row) (a : Answer Row) (c : Cache Key Row)
      → H call
      → own_answer call.facade call.query ≡ result_of a
      → All IsFrom c.entries
      → All IsFrom (ask le a call.now call.took call.query c).0.entries
        × ((ask le a call.now call.took call.query c).0.ttl ≡ c.ttl)
  unfolding ask put_query IsFrom
  ask-keeps call (answered r) c h own from =
      All-put IsFrom (call.now + call.took) (make_key le call.query) r c from
        (call, h, refl, refl, own)
  ask-keeps call too_many_rows c h own from = (from, refl)
  ask-keeps call invalid c h own from = (from, refl)

  after_cache-keeps :
      (call : Call Row) (facade : Query → Answer Row) (o : Option (Result Row)) (c : Cache Key Row)
      → H call
      → call.facade ≡ some facade
      → All IsFrom c.entries
      → All IsFrom (after_cache le facade call.now call.took call.query (o, c)).0.entries
        × ((after_cache le facade call.now call.took call.query (o, c)).0.ttl ≡ c.ttl)
  unfolding after_cache
  after_cache-keeps call facade (some r) c h own from = (from, refl)
  after_cache-keeps call facade none c h own from = elim (Bool-cases (limit_ok call.query.limit)) [
    | inl good ↦
        rw good
          (ask-keeps call (facade call.query) c h (ap (λ f. own_answer f call.query) own) from)
    | inr bad ↦ rw bad (from, refl)
  ]

  handle-keeps :
      (call : Call Row) (c : Cache Key Row)
      → H call
      → All IsFrom c.entries
      → All IsFrom (handle le call c).0.entries × ((handle le call c).0.ttl ≡ c.ttl)
  unfolding query_handler get_query
  handle-keeps call c h from = known call.facade refl
    where
      known :
          (f : Option (Query → Answer Row))
          → call.facade ≡ f
          → All IsFrom (query_handler le f call.now call.took call.query c).0.entries
            × ((query_handler le f call.now call.took call.query c).0.ttl ≡ c.ttl)
      known none own = (from, refl)
      known (some facade) own =
          let got = get call.now (make_key le call.query) c in
          let kept = All-get IsFrom call.now (make_key le call.query) c from in
          let after = after_cache-keeps call facade got.0 got.1 h own kept.0 in
          (after.0, after.1 ∙ kept.1)

  run-keeps :
      (calls : List (Call Row)) (c : Cache Key Row)
      → All H calls
      → All IsFrom c.entries
      → All IsFrom (run le calls c).entries × ((run le calls c).ttl ≡ c.ttl)
  unfolding run
  run-keeps [] c h from = (from, refl)
  run-keeps (call ∷ calls) c h from =
      let step = handle-keeps call c h.0 from in
      let rest = run-keeps calls (handle le call c).0 h.1 step.0 in (rest.0, rest.1 ∙ step.1)

  -- An answer that was given to the same key, not longer ago than the time to live.
  IsGiven : ℕ → Call Row → Result Row → Type 0
  IsGiven ttl call r =
      (prior : Call Row) × H prior
      × (make_key le prior.query ≡ make_key le call.query)
      × (own_answer prior.facade prior.query ≡ some r)
      × (call.now ≤ prior.now + prior.took + ttl)

  ask-ok :
      (call : Call Row) (a : Answer Row) (r : Result Row) (c : Cache Key Row)
      → H call
      → own_answer call.facade call.query ≡ result_of a
      → (ask le a call.now call.took call.query c).1 ≡ ok r
      → (ttl : ℕ) → IsGiven ttl call r
  unfolding ask IsGiven
  ask-ok call (answered s) r c h own q ttl = (call, h, refl, ground (arith, own, q), omega arith)
  ask-ok call too_many_rows r c h own q ttl = absurd (ground (arith, q))
  ask-ok call invalid r c h own q ttl = absurd (ground (arith, q))

  handle-ok :
      (call : Call Row) (r : Result Row) (c : Cache Key Row)
      → H call
      → All IsFrom c.entries
      → (handle le call c).1 ≡ ok r
      → IsGiven c.ttl call r
  unfolding query_handler get_query after_cache IsGiven IsFrom
  handle-ok call r c h from = known call.facade refl
    where
      known :
          (f : Option (Query → Answer Row))
          → call.facade ≡ f
          → (query_handler le f call.now call.took call.query c).1 ≡ ok r
          → IsGiven c.ttl call r
      known none own q = absurd (ground (arith, q))
      known (some facade) own q = cached (get call.now key c).0 refl q
        where
          key : Key
          key = make_key le call.query

          cached :
              (o : Option (Result Row))
              → (get call.now key c).0 ≡ o
              → (after_cache le facade call.now call.took call.query (o, (get call.now key c).1)).1
                ≡ ok r
              → IsGiven c.ttl call r
          cached (some s) hit q =
              let (x, (prior, given, same_key, stamped, own), same, fresh) =
                get-served IsFrom call.now key r c from (hit ∙ ground (arith, q)) in
              (prior, given, same_key, own ∙ ap some same, omega (arith, stamped, fresh))
          cached none miss q = elim (Bool-cases (limit_ok call.query.limit)) [
            | inl good ↦
                ask-ok call (facade call.query) r (get call.now key c).1 h
                  (ap (λ f. own_answer f call.query) own) (ground (arith, good, q)) c.ttl
            | inr bad ↦ absurd (ground (arith, q, bad))
          ]

module _ {A : Type 0} where
  -- an element of a list, by its place
  pub IsOneOf : List A → A → Type 0
  IsOneOf all x = (before : List A) × (after : List A) × (all ≡ before ++ x ∷ after)

  -- every call of a history and the next one
  history-IsOneOf :
      (xs : List A) (x : A) → All (IsOneOf (xs ++ x ∷ [])) xs × IsOneOf (xs ++ x ∷ []) x
  unfolding IsOneOf
  history-IsOneOf xs x = (earlier xs [] refl, (xs, [], refl))
    where
      earlier : (ys before : List A) → xs ≡ before ++ ys → All (IsOneOf (xs ++ x ∷ [])) ys
      earlier [] before q = tt
      earlier (y ∷ ys) before q = (
        (before, ys ++ x ∷ [], ap (λ l. l ++ x ∷ []) q ∙ append_assoc before (y ∷ ys) (x ∷ [])),
        earlier ys (before ++ y ∷ []) (q ∙ sym (append_assoc before (y ∷ []) ys)),
      )

-- Over any history of calls from an empty cache, with any facade at each call: a result that the
-- handler gives is one that the facade gave, at this call or an earlier one, to a query with the
-- same cache key, and that call ended not longer ago than the time
-- to live.
pub query_handler-fresh :
    {Row : Type 0} (le : String → String → Bool) (maxsize ttl max_weight : ℕ)
    (calls : List (Call Row)) (call : Call Row) (r : Result Row)
    → (handle le call (run le calls (init maxsize ttl max_weight))).1 ≡ ok r
    → (prior : Call Row) × IsOneOf (calls ++ call ∷ []) prior
      × (make_key le prior.query ≡ make_key le call.query)
      × (own_answer prior.facade prior.query ≡ some r)
      × (call.now ≤ prior.now + prior.took + ttl)
unfolding IsGiven init
query_handler-fresh le maxsize ttl max_weight calls call r q =
    let all = calls ++ call ∷ [] in
    let (earlier, last) = history-IsOneOf calls call in
    let kept = run-keeps le (IsOneOf all) calls (init maxsize ttl max_weight) earlier tt in
    let (prior, is_prior, same, own, fresh) =
      handle-ok le (IsOneOf all) call r (run le calls (init maxsize ttl max_weight)) last kept.0
        q in
    (prior, is_prior, same, own, omega (arith, fresh, kept.1))
