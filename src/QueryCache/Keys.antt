-- ===== src/QueryCache/Keys.antt =====
-- messaging/query_cache.py: `_make_key` and `_row_count`, and the JSON values they read.
use sqtseries.Prelude.{
  ℕ, String, Bool, Option, none, some, List, Eq, eq_of_discrete, string_discrete, nat_eq, string_eq,
  length,
}
use native.Mathlib.Decide.{ℕ_discrete}
use sqtseries.Prelude.Sorted.{sorted}

-- A JSON value of a query field: absent or null, a number, or a text.
pub data Scalar : Type 0 where
  null : Scalar
  number : ℕ → Scalar
  text : String → Scalar

-- The field `aggregations`, which may be a list of names.
pub data Aggregations : Type 0 where
  scalar : Scalar → Aggregations
  names : List String → Aggregations

pub record Query : Type 0 where
  pub metric : Scalar
  pub start : Scalar
  pub end : Scalar
  pub aggregation : Scalar
  pub interval : Scalar
  pub aggregations : Aggregations
  pub limit : Scalar
  pub order : Option Scalar

-- The key is the query, with the names sorted and the default order filled in.
pub record Key : Type 0 where
  pub metric : Scalar
  pub start : Scalar
  pub end : Scalar
  pub aggregation : Scalar
  pub interval : Scalar
  pub aggregations : Aggregations
  pub limit : Scalar
  pub order : Scalar

unfoldable pub Key-discrete : Discrete Key
Key-discrete = hlevel (ℕ_discrete, string_discrete)

instance abbrev pub key_eq : Eq Key
key_eq = eq_of_discrete Key-discrete

-- A field of a result: a list of rows, a dictionary, or anything else (also absent).
pub data Field (Row : Type 0) : Type 0 where
  rows : List Row → Field Row
  dict : List (String × Row) → Field Row
  other : Field Row

-- A result is an object with the fields `data` and `aggregations`, or no object.
pub data Result (Row : Type 0) : Type 0 where
  object : Field Row → Field Row → Result Row
  plain : Row → Result Row

-- Names are sorted by the order of texts.
sort_names : (String → String → Bool) → Aggregations → Aggregations
sort_names le (scalar s) = scalar s
sort_names le (names l) = names (sorted le l)

default_order : Option Scalar → Scalar
default_order none = text "asc"
default_order (some s) = s

unfoldable pub make_key : (String → String → Bool) → Query → Key
unfolding sort_names default_order
make_key le q = record {
  metric = q.metric;
  start = q.start;
  end = q.end;
  aggregation = q.aggregation;
  interval = q.interval;
  aggregations = sort_names le q.aggregations;
  limit = q.limit;
  order = default_order q.order;
}

field_count : {Row : Type 0} → Field Row → Field Row → ℕ
field_count (rows l) _ = length l
field_count _ (dict d) = length d
field_count _ _ = 1

unfoldable pub row_count : {Row : Type 0} → Result Row → ℕ
unfolding field_count
row_count (object d a) = field_count d a
row_count (plain r) = 1
