-- ===== src/Tests/Service.antt =====
-- The query handler with its cache.
use sqtseries.Prelude.{
  ℕ, ◌+◌, ◌≤◌, String, ◌≡◌, refl, string_discrete, Bool, true, none, some, List, [], ◌∷◌, ◌++◌,
  nat_eq, string_eq,
}
use sqtseries.Dict.{lookup, without, move_to_end}
use sqtseries.QueryCache.{init, get, put, evict, get_query, put_query}
use sqtseries.QueryCache.Keys.{
  Scalar, null, number, text, scalar, Query, Result, object, rows, other, row_count, make_key,
  key_eq, Key-discrete,
}
use native.Mathlib.Decide.{ℕ_discrete}
use sqtseries.Service.{Answer, answered, too_many_rows, ok, error, invalid_query, query_handler}
use sqtseries.Service.Fresh.{Call, own_answer, handle, run, IsOneOf, query_handler-fresh}

abbrev any_order : String → String → Bool
any_order a b = true

abbrev first_rows : Scalar → Query
first_rows limit = record {
  metric = text "cpu";
  start = number 0;
  end = null;
  aggregation = null;
  interval = null;
  aggregations = scalar null;
  limit = limit;
  order = none;
}

abbrev replied : ℕ → Result ℕ
replied n = object (rows (n ∷ [])) other

abbrev at_time : ℕ → Answer ℕ → Call ℕ
at_time t a = record { now = t; took = 1; facade = some (λ q. a); query = first_rows (number 1) }

abbrev history : List (Call ℕ)
history =
    record { now = 1; took = 0; facade = none; query = first_rows null }
    ∷ at_time 2 too_many_rows
    ∷ at_time 3 (answered (replied 7))
    ∷ []

-- within the time to live the cache answers, after it the facade
replies :
    ((handle any_order (at_time 5 (answered (replied 8))) (run any_order history (init 2 4 100))).1
      ≡ ok (replied 7))
    × ((handle any_order
          (at_time 9 (answered (replied 8)))
          (run any_order history (init 2 4 100))).1
        ≡ ok (replied 8))
    × ((query_handler any_order
          (some (λ q. answered (replied 8)))
          5
          1
          (first_rows (number 0))
          (init 2 4 100)).1
        ≡ error invalid_query)
unfolding run query_handler get_query put_query get put init lookup without evict row_count
    move_to_end make_key Key-discrete string_discrete ℕ_discrete
replies = (refl, refl, refl)

query_handler-fresh_example :
    (prior : Call ℕ) × IsOneOf (history ++ at_time 5 (answered (replied 8)) ∷ []) prior
    × (make_key any_order prior.query ≡ make_key any_order (first_rows (number 1)))
    × (own_answer prior.facade prior.query ≡ some (replied 7))
    × (5 ≤ prior.now + prior.took + 4)
query_handler-fresh_example =
    query_handler-fresh any_order 2 4 100 history (at_time 5 (answered (replied 8))) (replied 7)
      replies.0
