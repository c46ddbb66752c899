-- ===== src/Agg.antt =====
-- query/agg.py: aggregation functions, downsampling into buckets and gap filling.
-- Values are any type with the operations of floats that the module uses; timestamps are numbers.
-- `none` is ValueError. The interval text is parsed by the caller; buckets have a positive width.
pub mod Buckets
pub mod Gaps
use sqtseries.Prelude.Text.{text_eq}
use sqtseries.Prelude.{
  ℕ, zero, suc, ◌+◌, ◌-◌, ◌*◌, ◌/◌, ◌%◌, ◌^◌, ◌≤◌, ◌<◌, min, max, String, ◌≡◌, refl, sym, ap, ◌∙◌,
  ◌≢◌, ◌↔◌, ◌⊎◌, inl, inr, Bool, true, false, ◌&&◌, ◌||◌, not, Option, none, some, List, [], ◌∷◌,
  ◌++◌, map, arith, ltb, leb, ◌==◌, if◌then◌else◌, ltb→lt, lt→ltb, leb→le, ==_iff, Bool-cases,
  Option-cases, Eq, eq_of_discrete, string_discrete, pair_eq, option_eq, nat_eq, string_eq, length,
  take, drop, keep, length-append, length-take, length-drop, length-keep-le, All, All-append,
}
use sqtseries.Prelude.Sorted.{sorted}
use sqtseries.Prelude.Text.{Text, list_beq}
use sqtseries.Dict.{lookup, assign}

-- what the module asks of floats
pub record Floats (V : Type 0) : Type 0 where
  pub nan : V
  pub of_count : ℕ → V
  pub add : V → V → V
  -- division by a number of values
  pub over : V → ℕ → V
  pub le : V → V → Bool
  -- `a * (100 - k) / 100 + b * k / 100`
  pub mix : ℕ → V → V → V

pub data AggregationFunction : Type 0 where
  avg sum minimum maximum count first last median p95 p99 : AggregationFunction

-- the bucket of a timestamp
abbrev pub bucket_key : {V : Type 0} → ℕ → ℕ × V → ℕ
bucket_key bucket_ns s = s.0 / bucket_ns

abbrev pub values_of : {V : Type 0} → Option (List V) → List V
values_of none = []
values_of (some vals) = vals

-- `buckets.setdefault(bkey, []).append(value)` for every sample
unfoldable pub group : {V : Type 0} → ℕ → List (ℕ × List V) → List (ℕ × V) → List (ℕ × List V)
unfolding lookup assign
group bucket_ns buckets [] = buckets
group bucket_ns buckets (s ∷ samples) =
    let bkey = bucket_key bucket_ns s in
    group bucket_ns (assign bkey (values_of (lookup bkey buckets) ++ s.1 ∷ []) buckets) samples

abbrev pub keys : {W : Type 0} → List (ℕ × W) → List ℕ
keys = map (λ p. p.0)

-- `downsample` after the interval and the function are looked up
unfoldable pub downsample : {V : Type 0} → ℕ → (List V → V) → List (ℕ × V) → List (ℕ × V)
unfolding group lookup sorted
downsample bucket_ns agg samples =
    let buckets = group bucket_ns [] samples in
    map (λ b. (b * bucket_ns, agg (values_of (lookup b buckets)))) (sorted leb (keys buckets))

-- `range(a, a + n)`
unfoldable pub range : ℕ → ℕ → List ℕ
range a zero = []
range a (suc n) = a ∷ range (suc a) n

abbrev pub least : ℕ → List ℕ → ℕ
least m [] = m
least m (n ∷ l) = least (min m n) l

abbrev pub greatest : ℕ → List ℕ → ℕ
greatest m [] = m
greatest m (n ∷ l) = greatest (max m n) l

abbrev pub or_nan : {V : Type 0} → Floats V → (List V → V) → List V → V
or_nan F agg [] = F.nan
or_nan F agg (v ∷ vals) = agg (v ∷ vals)

unfoldable pub downsample_to_intervals :
    {V : Type 0} → Floats V → ℕ → (List V → V) → Bool → List (ℕ × V) → List (ℕ × V)
unfolding downsample group lookup range
downsample_to_intervals F bucket_ns agg false samples = downsample bucket_ns agg samples
downsample_to_intervals F bucket_ns agg true [] = []
downsample_to_intervals F bucket_ns agg true (s ∷ samples) =
    let buckets = group bucket_ns [] (s ∷ samples) in
    let bounds = map (bucket_key bucket_ns) samples in
    let low = least (bucket_key bucket_ns s) bounds in
    let high = greatest (bucket_key bucket_ns s) bounds in
    map (λ b. (b * bucket_ns, or_nan F agg (values_of (lookup b buckets))))
      (range low (high + 1 - low))

-- `gap_fill_linear`: the point halfway is added where the gap is not too wide
unfoldable pub gap_fill_linear : {V : Type 0} → Floats V → ℕ → List (ℕ × V) → List (ℕ × V)
gap_fill_linear F max_gap_ns [] = []
gap_fill_linear F max_gap_ns (s ∷ []) = s ∷ []
gap_fill_linear F max_gap_ns (s ∷ t ∷ samples) =
    let rest = gap_fill_linear F max_gap_ns (t ∷ samples) in
    if ltb s.0 t.0 && leb (t.0 - s.0) max_gap_ns
    then s ∷ (s.0 + (t.0 - s.0) / 2, F.over (F.add s.1 t.1) 2) ∷ rest
    else s ∷ rest

module _ {V : Type 0} (F : Floats V) where
  unfoldable pub sum_values : V → List V → V
  sum_values v [] = v
  sum_values v (w ∷ vals) = sum_values (F.add v w) vals

  unfoldable pub least_value : V → List V → V
  least_value v [] = v
  least_value v (w ∷ vals) = least_value (if F.le v w then v else w) vals

  unfoldable pub greatest_value : V → List V → V
  greatest_value v [] = v
  greatest_value v (w ∷ vals) = greatest_value (if F.le w v then v else w) vals

  unfoldable pub nth : ℕ → V → List V → V
  nth n v [] = v
  nth zero v (w ∷ vals) = w
  nth (suc n) v (w ∷ vals) = nth n w vals

  unfoldable pub last_value : V → List V → V
  last_value v [] = v
  last_value v (w ∷ vals) = last_value w vals

  -- `_percentile` of a non-empty list, with `q` in hundredths and an exact rank
  unfoldable pub percentile : ℕ → V → List V → V
  unfolding nth sorted
  percentile q v vals =
      let ordered = sorted F.le (v ∷ vals) in
      let rank = length vals * q in
      let lower = rank / 100 in
      if rank % 100 == 0
      then nth lower v ordered
      else F.mix (rank % 100) (nth lower v ordered) (nth (lower + 1) v ordered)

  -- `statistics.median` of a non-empty list
  unfoldable pub middle_value : V → List V → V
  unfolding nth sorted
  middle_value v vals =
      let ordered = sorted F.le (v ∷ vals) in
      let n = suc (length vals) in
      if n % 2 == 1
      then nth (n / 2) v ordered
      else F.over (F.add (nth (n / 2 - 1) v ordered) (nth (n / 2) v ordered)) 2

  -- `AGGREGATORS` on a non-empty list
  unfoldable pub aggregate : AggregationFunction → V → List V → V
  unfolding sum_values least_value greatest_value last_value percentile middle_value
  aggregate avg v vals = F.over (sum_values v vals) (suc (length vals))
  aggregate sum v vals = sum_values v vals
  aggregate minimum v vals = least_value v vals
  aggregate maximum v vals = greatest_value v vals
  aggregate count v vals = F.of_count (suc (length vals))
  aggregate first v vals = v
  aggregate last v vals = last_value v vals
  aggregate median v vals = middle_value v vals
  aggregate p95 v vals = percentile 95 v vals
  aggregate p99 v vals = percentile 99 v vals

-- `text.lower()` on ASCII
abbrev pub lower : Text → Text
lower = map (λ c. if leb 65 c && leb c 90 then c + 32 else c)

abbrev pub names : List (Text × AggregationFunction)
names =
    (97 ∷ 118 ∷ 103 ∷ [], avg)
    ∷ (115 ∷ 117 ∷ 109 ∷ [], sum)
    ∷ (109 ∷ 105 ∷ 110 ∷ [], minimum)
    ∷ (109 ∷ 97 ∷ 120 ∷ [], maximum)
    ∷ (99 ∷ 111 ∷ 117 ∷ 110 ∷ 116 ∷ [], count)
    ∷ (102 ∷ 105 ∷ 114 ∷ 115 ∷ 116 ∷ [], first)
    ∷ (108 ∷ 97 ∷ 115 ∷ 116 ∷ [], last)
    ∷ (109 ∷ 101 ∷ 100 ∷ 105 ∷ 97 ∷ 110 ∷ [], median)
    ∷ (112 ∷ 57 ∷ 53 ∷ [], p95)
    ∷ (112 ∷ 57 ∷ 57 ∷ [], p99)
    ∷ []

-- the samples' values, aggregated by name; the test of an empty window reads the name as given
unfoldable pub aggregate_series : {V : Type 0} → Floats V → Text → List (ℕ × V) → Option V
unfolding aggregate lookup
aggregate_series F name samples = elim (lookup (lower name) names) [
  | none ↦ none
  | some f ↦ elim samples [
    | [] ↦
        if list_beq name (99 ∷ 111 ∷ 117 ∷ 110 ∷ 116 ∷ []) || list_beq name (115 ∷ 117 ∷ 109 ∷ [])
        then some (F.of_count 0)
        else some F.nan
    | s ∷ rest ↦ some (aggregate F f s.1 (map (λ x. x.1) rest))
  ]
]
