-- ===== src/Query.antt =====
-- query/builder.py: the fast path that answers an aggregate from the hourly rollup and the raw edges
-- of the window, with the cap on raw rows; and `query_rollup_partial` of partition/rollup.py.
-- The clock reading `time.time_ns()` is an argument. `none` is MaxRowsExceededError.
pub mod Buckets
pub mod Edges
pub mod Window
pub mod Downsample
pub mod Aggregate
use sqtseries.Prelude.{
  ℕ, zero, suc, ◌+◌, ◌-◌, ◌*◌, ◌/◌, ◌%◌, ◌^◌, ◌≤◌, ◌<◌, min, max, String, ◌≡◌, refl, sym, ap, ◌∙◌,
  ◌≢◌, ◌↔◌, ◌⊎◌, inl, inr, Bool, true, false, ◌&&◌, ◌||◌, not, Option, none, some, List, [], ◌∷◌,
  ◌++◌, map, arith, ltb, leb, ◌==◌, if◌then◌else◌, ltb→lt, lt→ltb, leb→le, ==_iff, Bool-cases,
  Option-cases, Eq, eq_of_discrete, string_discrete, pair_eq, option_eq, nat_eq, string_eq, length,
  take, drop, keep, length-append, length-take, length-drop, length-keep-le, All, All-append,
}
use sqtseries.Prelude.Sorted.{sorted, has}
use sqtseries.Partials.{Values, Partial, single, partials}
use sqtseries.Partials.Tables.{merge}
use sqtseries.Schema.{hour_ns}
use sqtseries.Rollup.{Db, HourKey, hour_of, rollup_watermark}
use sqtseries.Scan.{Order, asc, query_time_range}

-- the key of a merged bucket: `None` for the whole window
abbrev pub BucketKey : Type 0
BucketKey = Option ℕ

instance abbrev pub bucket_eq : Eq BucketKey
bucket_eq = option_eq

abbrev pub bucket_le : BucketKey → BucketKey → Bool
bucket_le (some a) (some b) = leb a b
bucket_le _ _ = true

-- the start of the bucket of a timestamp
abbrev pub bucket_of : Option ℕ → ℕ → BucketKey
bucket_of none ts = none
bucket_of (some bucket_ns) ts = some (ts / bucket_ns * bucket_ns)

abbrev pub start_or_zero : Option ℕ → ℕ
start_or_zero none = 0
start_or_zero (some start) = start

abbrev pub eff_end : ℕ → Option ℕ → ℕ
eff_end now none = now
eff_end now (some end) = end

-- `fetch_limit` of `_fetch`
unfoldable pub fetch_limit : ℕ → Option ℕ → Option ℕ
fetch_limit zero caller = caller
fetch_limit (suc cap) none = some (suc (suc cap))
fetch_limit (suc cap) (some n) = some (if ltb n (suc (suc cap)) then n else suc (suc cap))

-- `cap and cap > 0 and len(rows) > cap`
abbrev pub over_cap : ℕ → ℕ → Bool
over_cap cap n = ltb 0 cap && ltb cap n

module _ {V : Type 0} (max_rows : ℕ) (db : Db V) where
  unfoldable pub fetch : List ℕ → Option ℕ → Option ℕ → Order → Option ℕ → Option (List (ℕ × V))
  unfolding query_time_range fetch_limit
  fetch [] start end order caller_limit = some []
  fetch (s ∷ sids) start end order caller_limit =
      let rows =
        query_time_range (s ∷ sids) start end (fetch_limit max_rows caller_limit) order db in
      if over_cap max_rows (length rows) then none else some rows

module _ {V : Type 0} (A : Values V) where
  -- the running count, sum, minimum and maximum of the values
  unfoldable pub whole : Partial V → List (ℕ × V) → Partial V
  whole p [] = p
  whole p (x ∷ samples) = whole ((partials A).combine p (single x.1)) samples

  unfoldable pub bucket_partials : Option ℕ → List (ℕ × V) → List (BucketKey × Partial V)
  unfolding whole merge
  bucket_partials none [] = []
  bucket_partials none (x ∷ samples) = (none, whole (single x.1) samples) ∷ []
  bucket_partials (some bucket_ns) samples =
      map (λ x. (some (x.0 * bucket_ns), x.1))
        (sorted (λ a b. leb a.0 b.0)
          (merge (partials A) [] (map (λ x. (x.0 / bucket_ns, single x.1)) samples)))

  -- `WHERE series_id IN (…) AND hour_start_ns >= ? AND hour_start_ns < ?`
  abbrev pub rolled : List ℕ → ℕ → ℕ → HourKey → Bool
  rolled sids start end k = has k.0 sids && (leb start k.1 && ltb k.1 end)

  -- grouped by bucket, or one group for the window (and none if no row matched)
  unfoldable pub query_rollup_partial :
      List ℕ → ℕ → ℕ → Option ℕ → Db V → List (BucketKey × Partial V)
  unfolding merge
  query_rollup_partial sids start end bucket db =
      merge (partials A) []
        (map (λ x. (bucket_of bucket x.0.1, x.1)) (keep (λ x. rolled sids start end x.0) db.rollup))

  unfoldable pub merge_partials :
      List (BucketKey × Partial V)
      → List (BucketKey × Partial V)
      → List (BucketKey × Partial V)
      → List (BucketKey × Partial V)
  unfolding merge
  merge_partials left right middle =
      merge (partials A) (merge (partials A) (merge (partials A) [] left) right) middle

  module _ (max_rows now : ℕ) (db : Db V) (sids : List ℕ) (start end : Option ℕ)
      (bucket : Option ℕ) where
    -- the first, partial hour
    unfoldable pub left_edge : Option (List (ℕ × V))
    unfolding fetch
    left_edge =
        let left_end = min (hour_of (start_or_zero start) + hour_ns - 1) (eff_end now end) in
        if leb (start_or_zero start) left_end
        then fetch max_rows db sids start (some left_end) asc none
        else some []

    -- the last, partial hour
    unfoldable pub right_edge : Option (List (ℕ × V))
    unfolding fetch
    right_edge =
        let stop = eff_end now end in
        if ltb (hour_of (start_or_zero start)) (hour_of stop) && leb (hour_of stop) stop
        then fetch max_rows db sids (some (hour_of stop)) (some stop) asc none
        else some []

    unfoldable pub middle : List (BucketKey × Partial V)
    unfolding query_rollup_partial
    middle =
        let first = hour_of (start_or_zero start) in
        let last = hour_of (eff_end now end) in
        if leb (first + 2 * hour_ns) last
        then query_rollup_partial sids (first + hour_ns) last bucket db
        else []

    unfoldable pub rollup_window_partials : Option (List (BucketKey × Partial V))
    rollup_window_partials = elim left_edge [
      | none ↦ none
      | some left ↦ elim right_edge [
        | none ↦ none
        | some right ↦
            some
              (merge_partials (bucket_partials bucket left) (bucket_partials bucket right) middle)
      ]
    ]

-- The part of `_rollup_eligible` that reads the window: `bucket` is the parsed interval.
unfoldable pub rollup_eligible : {V : Type 0} → ℕ → Db V → Option ℕ → Option ℕ → Option ℕ → Bool
unfolding rollup_watermark
rollup_eligible now db start end bucket =
    let stop = hour_of (eff_end now end) in
    let first = hour_of (start_or_zero start) in
    elim bucket [ none ↦ true | some bucket_ns ↦ bucket_ns % hour_ns == 0 ]
    && (not (rollup_watermark db == 0)
        && (not (ltb (rollup_watermark db) stop || ltb stop (first + 2 * hour_ns))
            && elim start [ none ↦ true | some s ↦ ltb s (rollup_watermark db) ]))
