-- ===== src/Service.antt =====
-- service.py: `_query_handler`, between the query cache and the query facade. What the facade does
-- with a query at the time of the call is an argument, since the tables change between calls. The clock
-- is read when the cache is asked, at `now`, and after the facade, `took` later.
pub mod Fresh
use sqtseries.Prelude.{
  ℕ, zero, suc, ◌+◌, ◌-◌, ◌*◌, ◌/◌, ◌%◌, ◌^◌, ◌≤◌, ◌<◌, min, max, String, ◌≡◌, refl, sym, ap, ◌∙◌,
  ◌≢◌, ◌↔◌, ◌⊎◌, inl, inr, Bool, true, false, ◌&&◌, ◌||◌, not, Option, none, some, List, [], ◌∷◌,
  ◌++◌, map, arith, ltb, leb, ◌==◌, if◌then◌else◌, ltb→lt, lt→ltb, leb→le, ==_iff, Bool-cases,
  Option-cases, Eq, eq_of_discrete, string_discrete, pair_eq, option_eq, nat_eq, string_eq, length,
  take, drop, keep, length-append, length-take, length-drop, length-keep-le, All, All-append,
}
use sqtseries.QueryCache.{Cache, get_query, put_query}
use sqtseries.QueryCache.Keys.{Scalar, null, number, text, Query, Key, Result, key_eq}

-- what the facade gives: a result, MaxRowsExceededError, or an error of the query
pub data Answer (Row : Type 0) : Type 0 where
  answered : Result Row → Answer Row
  too_many_rows invalid : Answer Row

pub data Code : Type 0 where
  not_ready max_rows_exceeded invalid_query : Code

pub data Reply (Row : Type 0) : Type 0 where
  ok : Result Row → Reply Row
  error : Code → Reply Row

-- no limit, or a positive integer
abbrev pub limit_ok : Scalar → Bool
limit_ok null = true
limit_ok (number n) = leb 1 n
limit_ok (text t) = false

module _ {Row : Type 0} (le : String → String → Bool) where
  -- the query goes to the facade, and a result into the cache
  unfoldable pub ask : Answer Row → ℕ → ℕ → Query → Cache Key Row → Cache Key Row × Reply Row
  unfolding put_query
  ask (answered r) now took q c = (put_query le (now + took) q r c, ok r)
  ask too_many_rows now took q c = (c, error max_rows_exceeded)
  ask invalid now took q c = (c, error invalid_query)

  -- after the cache was asked
  unfoldable pub after_cache :
      (Query → Answer Row)
      → ℕ
      → ℕ
      → Query
      → Option (Result Row) × Cache Key Row
      → Cache Key Row × Reply Row
  unfolding ask
  after_cache facade now took q (some r, c) = (c, ok r)
  after_cache facade now took q (none, c) =
      if limit_ok q.limit then ask (facade q) now took q c else (c, error invalid_query)

  unfoldable pub query_handler :
      Option (Query → Answer Row) → ℕ → ℕ → Query → Cache Key Row → Cache Key Row × Reply Row
  unfolding after_cache get_query
  query_handler none now took q c = (c, error not_ready)
  query_handler (some facade) now took q c = after_cache facade now took q (get_query le now q c)
