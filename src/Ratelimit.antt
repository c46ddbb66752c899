-- ===== src/Ratelimit.antt =====
-- gateway/ratelimit.py: requests of a client in one fixed window of a minute. `time` is the clock in
-- seconds; the answer says whether the request reaches the application.
pub mod Limits
use sqtseries.Prelude.{
  ℕ, zero, suc, ◌+◌, ◌-◌, ◌*◌, ◌/◌, ◌%◌, ◌^◌, ◌≤◌, ◌<◌, min, max, String, ◌≡◌, refl, sym, ap, ◌∙◌,
  ◌≢◌, ◌↔◌, ◌⊎◌, inl, inr, Bool, true, false, ◌&&◌, ◌||◌, not, Option, none, some, List, [], ◌∷◌,
  ◌++◌, map, arith, ltb, leb, ◌==◌, if◌then◌else◌, ltb→lt, lt→ltb, leb→le, ==_iff, Bool-cases,
  Option-cases, Eq, eq_of_discrete, string_discrete, pair_eq, option_eq, nat_eq, string_eq, length,
  take, drop, keep, length-append, length-take, length-drop, length-keep-le, All, All-append,
}
use sqtseries.Dict.{lookup, assign, without}

-- a client's count and the window that it was counted in
pub record Mark : Type 0 where
  pub count : ℕ
  pub window : ℕ

abbrev pub Hits : Type 0 → Type 0
Hits K = List (K × Mark)

pub record Limiter (K : Type 0) : Type 0 where
  pub limit : ℕ
  pub hits : Hits K
  pub max_keys : ℕ

unfoldable pub init : {K : Type 0} → ℕ → Limiter K
init limit_per_minute = record { limit = limit_per_minute; hits = []; max_keys = 10000 }

unfoldable pub window_of : ℕ → ℕ
window_of time = time / 60

-- the table's sweep: clients of other windows go, then the oldest entries over the cap
unfoldable pub sweep : {K : Type 0} → ℕ → ℕ → Hits K → Hits K
sweep max_keys window hits =
    let current = keep (λ p. p.1.window == window) hits in
    if ltb max_keys (length hits) then drop (length current - max_keys) current else hits

-- `self._hits[client]` of a `defaultdict`
abbrev pub mark_of : Option Mark → Mark
mark_of none = record { count = 0; window = 0 }
mark_of (some mark) = mark

module _ {K : Type 0} ⦃e : Eq K⦄ where
  -- the count of the request; reading puts the default into the table, where it stays when the
  -- request is refused
  unfoldable pub count_request : K → ℕ → Mark → Hits K → Limiter K → Limiter K × Bool
  unfolding assign
  count_request client window mark swept limiter =
      let hits = assign client mark swept in
      let counted = λ (n : ℕ). assign client (record { count = n; window = window }) hits in
      if not (mark.window == window)
      then (record limiter { hits = counted 1 }, true)
      else if ltb limiter.limit (mark.count + 1)
      then (record limiter { hits = hits }, false)
      else (record limiter { hits = counted (mark.count + 1) }, true)

  unfoldable pub admit : K → ℕ → Limiter K → Limiter K × Bool
  unfolding lookup sweep window_of count_request
  admit client time limiter =
      let window = window_of time in
      let swept = sweep limiter.max_keys window limiter.hits in
      count_request client window (mark_of (lookup client swept)) swept limiter
