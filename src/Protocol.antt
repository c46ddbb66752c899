-- ===== src/Protocol.antt =====
-- messaging/protocol.py: the checks of the three messages, and the timestamps that the server gives,
-- with the payload that `write` of client.py sends. JSON values are what `orjson.loads` gives; an
-- integer is a sign and a magnitude, and floats are a parameter with the operations that are used,
-- as is the parser of ISO-8601 texts.
pub mod Clock
pub mod Ingest
pub mod Write
use sqtseries.Prelude.{
  ℕ, zero, suc, ◌+◌, ◌-◌, ◌*◌, ◌/◌, ◌%◌, ◌^◌, ◌≤◌, ◌<◌, min, max, String, ◌≡◌, refl, sym, ap, ◌∙◌,
  ◌≢◌, ◌↔◌, ◌⊎◌, inl, inr, Bool, true, false, ◌&&◌, ◌||◌, not, Option, none, some, List, [], ◌∷◌,
  ◌++◌, map, arith, ltb, leb, ◌==◌, if◌then◌else◌, ltb→lt, lt→ltb, leb→le, ==_iff, Bool-cases,
  Option-cases, Eq, eq_of_discrete, string_discrete, pair_eq, option_eq, nat_eq, string_eq, length,
  take, drop, keep, length-append, length-take, length-drop, length-keep-le, All, All-append,
}
use sqtseries.Prelude.Text.{Text, text_eq, list_beq}

-- what the module asks of floats; `to_ns` is `int(f * 1e9)`, where `none` is its exception,
-- `over_billion` divides an integer by 10 ^ 9, and `is_far limit now t` is `abs(now - t) > limit`
pub record Floats (F : Type 0) : Type 0 where
  pub is_finite : F → Bool
  pub of_int : Bool → ℕ → F
  pub to_ns : F → Option (Bool × ℕ)
  pub over_billion : Bool → ℕ → F
  pub is_far : F → F → F → Bool

-- a JSON value; `int true n` is -n
mutual
  pub data Json (F : Type 0) : Type 0 where
    null : Json F
    bool : Bool → Json F
    int : Bool → ℕ → Json F
    float : F → Json F
    text : Text → Json F
    array : Elements F → Json F
    object : Fields F → Json F

  pub data Elements (F : Type 0) : Type 0 where
    no_element : Elements F
    element : Json F → Elements F → Elements F

  pub data Fields (F : Type 0) : Type 0 where
    no_field : Fields F
    field : Text → Json F → Fields F → Fields F

pub data Error : Type 0 where
  not_an_object bad_type bad_metric value_not_number value_not_finite : Error
  tags_not_object tags_not_strings timestamp_not_iso timestamp_not_number : Error
  timestamp_not_finite timestamp_skewed bad_bound bad_command : Error

pub data Parsed (A : Type 0) : Type 0 where
  accepted : A → Parsed A
  rejected : Error → Parsed A

abbrev pub and_then : {A B : Type 0} → Parsed A → (A → Parsed B) → Parsed B
and_then (accepted a) next = next a
and_then (rejected e) next = rejected e

-- the names of the fields
abbrev pub metric_name : Text
metric_name = 109 ∷ 101 ∷ 116 ∷ 114 ∷ 105 ∷ 99 ∷ []

abbrev pub value_name : Text
value_name = 118 ∷ 97 ∷ 108 ∷ 117 ∷ 101 ∷ []

abbrev pub tags_name : Text
tags_name = 116 ∷ 97 ∷ 103 ∷ 115 ∷ []

abbrev pub timestamp_name : Text
timestamp_name = 116 ∷ 105 ∷ 109 ∷ 101 ∷ 115 ∷ 116 ∷ 97 ∷ 109 ∷ 112 ∷ []

abbrev pub type_name : Text
type_name = 116 ∷ 121 ∷ 112 ∷ 101 ∷ []

abbrev pub query_text : Text
query_text = 113 ∷ 117 ∷ 101 ∷ 114 ∷ 121 ∷ []

abbrev pub start_name : Text
start_name = 115 ∷ 116 ∷ 97 ∷ 114 ∷ 116 ∷ []

abbrev pub end_name : Text
end_name = 101 ∷ 110 ∷ 100 ∷ []

abbrev pub cmd_name : Text
cmd_name = 99 ∷ 109 ∷ 100 ∷ []

-- a timestamp of a message, in seconds or, as a large integer, in nanoseconds
pub data Stamp (F : Type 0) : Type 0 where
  unset : Stamp F
  whole : Bool → ℕ → Stamp F
  fraction : F → Stamp F

abbrev pub Tags : Type 0
Tags = List (Text × Text)

pub record IngestMessage (F : Type 0) : Type 0 where
  pub metric : Text
  pub value : F
  pub tags : Option Tags
  pub timestamp : Stamp F

module _ {F : Type 0} where
  -- `raw.get(name)`, where a field that is missing is None as null is
  unfoldable pub get : Text → Fields F → Json F
  get name no_field = null
  get name (field key value fields) = if list_beq key name then value else get name fields

  unfoldable pub check_name : Error → Json F → Parsed Text
  check_name e (text (c ∷ name)) = accepted (c ∷ name)
  check_name e _ = rejected e

  -- the tags, if all are texts
  unfoldable pub text_fields : Fields F → Option Tags
  text_fields no_field = some []
  text_fields (field key value fields) = elim value [
    | text t ↦ elim (text_fields fields) [ none ↦ none | some tags ↦ some ((key, t) ∷ tags) ]
    | null ↦ none
    | bool b ↦ none
    | int s n ↦ none
    | float f ↦ none
    | array es ↦ none
    | object fs ↦ none
  ]

  unfoldable pub check_tags : Json F → Parsed (Option Tags)
  unfolding text_fields
  check_tags null = accepted none
  check_tags (object fields) = elim (text_fields fields) [
    | none ↦ rejected tags_not_strings
    | some tags ↦ accepted (some tags)
  ]
  check_tags _ = rejected tags_not_object

  module _ (floats : Floats F) (iso_to_ns : Text → Option (Bool × ℕ)) where
    unfoldable pub check_value : Json F → Parsed F
    check_value (int s n) = accepted (floats.of_int s n)
    check_value (float f) = if floats.is_finite f then accepted f else rejected value_not_finite
    check_value _ = rejected value_not_number

    unfoldable pub check_timestamp : Json F → Parsed (Stamp F)
    check_timestamp null = accepted unset
    check_timestamp (text t) = elim (iso_to_ns t) [
      | none ↦ rejected timestamp_not_iso
      | some (s, n) ↦ accepted (whole s n)
    ]
    check_timestamp (int s n) = accepted (whole s n)
    check_timestamp (float f) =
        if floats.is_finite f then accepted (fraction f) else rejected timestamp_not_finite
    check_timestamp _ = rejected timestamp_not_number

    -- the timestamp in seconds
    abbrev pub seconds_of : Bool → ℕ → F
    seconds_of s n = if ltb (10 ^ 12) n then floats.over_billion s n else floats.of_int s n

    -- the guard against clock skew, where no limit and 0 are the same, at the server's time
    unfoldable pub check_skew : Option F → F → Stamp F → Parsed (Stamp F)
    check_skew none now stamp = accepted stamp
    check_skew (some limit) now unset = accepted unset
    check_skew (some limit) now (whole s n) =
        if floats.is_far limit now (seconds_of s n)
        then rejected timestamp_skewed
        else accepted (whole s n)
    check_skew (some limit) now (fraction f) =
        if floats.is_far limit now f then rejected timestamp_skewed else accepted (fraction f)

    unfoldable pub parse_ingest : Option F → F → Json F → Parsed (IngestMessage F)
    unfolding get check_name check_value check_tags check_timestamp check_skew
    parse_ingest guard now (object raw) =
        and_then (check_name bad_metric (get metric_name raw)) (λ metric.
          and_then (check_value (get value_name raw)) (λ value.
            and_then (check_tags (get tags_name raw)) (λ tags.
              and_then (check_timestamp (get timestamp_name raw)) (λ given.
                and_then (check_skew guard now given) (λ timestamp. accepted (record {
                  metric = metric;
                  value = value;
                  tags = tags;
                  timestamp = timestamp;
                }))))))
    parse_ingest guard now _ = rejected not_an_object

    -- the nanoseconds of a timestamp, or those of the server's clock, which are later than the last
    -- that it has given
    unfoldable pub place : ℕ → ℕ → Stamp F → Option ((Bool × ℕ) × ℕ)
    place now last (whole s n) =
        some (if ltb (10 ^ 12) n then (s, n) else (s, n * 1000000000), last)
    place now last (fraction f) = elim (floats.to_ns f) [ none ↦ none | some ts ↦ some (ts, last) ]
    place now last unset = let ts = if leb now last then last + 1 else now in some ((false, ts), ts)

    -- `to_rows`, with the last timestamp that the server has given
    unfoldable pub to_rows :
        ℕ → ℕ → IngestMessage F → Option ((Text × Option Tags × F × (Bool × ℕ)) × ℕ)
    unfolding place
    to_rows now last m = elim (place now last m.timestamp) [
      | none ↦ none
      | some (ts, last') ↦ some ((m.metric, m.tags, m.value, ts), last')
    ]

  unfoldable pub parse_admin : Json F → Parsed Text
  unfolding get check_name
  parse_admin (object raw) = check_name bad_command (get cmd_name raw)
  parse_admin _ = rejected not_an_object
