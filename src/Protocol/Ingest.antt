-- ===== src/Protocol/Ingest.antt =====
-- messaging/protocol.py: the messages that are accepted.
use sqtseries.Prelude.{
  ℕ, ◌≡◌, refl, ap, Bool, true, false, Option, none, some, [], ◌∷◌, if◌then◌else◌, nat_eq,
  string_eq,
}
use sqtseries.Prelude.Text.{Text}
use sqtseries.Protocol.{
  Floats, Json, null, bool, int, float, text, array, object, Elements, Fields, no_field, field,
  Error, Parsed, accepted, rejected, and_then, value_not_finite, timestamp_not_finite, metric_name,
  value_name, tags_name, timestamp_name, Stamp, unset, whole, fraction, Tags, IngestMessage, get,
  check_name, text_fields, check_tags, check_value, check_timestamp, check_skew, seconds_of,
  timestamp_skewed, parse_ingest,
}
use mathlib.Core.Path.{subst}

module _ {F : Type 0} (floats : Floats F) where
  module _ (iso_to_ns : Text → Option (Bool × ℕ)) where
    -- what holds of a message that is accepted
    abbrev pub is_named : Text → Bool
    is_named [] = false
    is_named (c ∷ name) = true

    abbrev pub is_finite_stamp : Stamp F → Bool
    is_finite_stamp (fraction f) = floats.is_finite f
    is_finite_stamp _ = true

    abbrev pub Holds : {A : Type 0} → (A → Bool) → Parsed A → Type 0
    Holds test (accepted a) = test a ≡ true
    Holds test (rejected e) = Unit

    check_name-Holds : (e : Error) (j : Json F) → Holds is_named (check_name e j)
    unfolding check_name
    check_name-Holds e (text (c ∷ name)) = refl
    check_name-Holds e (text []) = tt
    check_name-Holds e null = tt
    check_name-Holds e (bool b) = tt
    check_name-Holds e (int s n) = tt
    check_name-Holds e (float f) = tt
    check_name-Holds e (array es) = tt
    check_name-Holds e (object fs) = tt

    check_value-Holds :
        (j : Json F)
        → ((s : Bool) (n : ℕ) → floats.is_finite (floats.of_int s n) ≡ true)
        → Holds floats.is_finite (check_value floats iso_to_ns j)
    unfolding check_value
    check_value-Holds (int s n) ints = ints s n
    check_value-Holds (float f) ints = when (floats.is_finite f) refl
      where
        when :
            (b : Bool)
            → floats.is_finite f ≡ b
            → Holds floats.is_finite (if b then accepted f else rejected value_not_finite)
        when true e = e
        when false e = tt
    check_value-Holds null ints = tt
    check_value-Holds (bool b) ints = tt
    check_value-Holds (text t) ints = tt
    check_value-Holds (array es) ints = tt
    check_value-Holds (object fs) ints = tt

    check_timestamp-Holds :
        (j : Json F) → Holds is_finite_stamp (check_timestamp floats iso_to_ns j)
    unfolding check_timestamp
    check_timestamp-Holds (int s n) = refl
    check_timestamp-Holds (float f) = when (floats.is_finite f) refl
      where
        when :
            (b : Bool)
            → floats.is_finite f ≡ b
            → Holds is_finite_stamp
                (if b then accepted (fraction f) else rejected timestamp_not_finite)
        when true e = e
        when false e = tt
    check_timestamp-Holds null = refl
    check_timestamp-Holds (bool b) = tt
    check_timestamp-Holds (text t) = parsed (iso_to_ns t)
      where
        parsed :
            (o : Option (Bool × ℕ))
            → Holds is_finite_stamp (elim o as (λ _. Parsed (Stamp F)) [
              | none ↦ rejected sqtseries.Protocol.timestamp_not_iso
              | some (s, n) ↦ accepted (whole s n)
            ])
        parsed none = tt
        parsed (some (s, n)) = refl
    check_timestamp-Holds (array es) = tt
    check_timestamp-Holds (object fs) = tt

    abbrev pub IsMessage : IngestMessage F → Type 0
    IsMessage m =
        (is_named m.metric ≡ true)
        × (floats.is_finite m.value ≡ true)
        × (is_finite_stamp m.timestamp ≡ true)

    abbrev message_or : IngestMessage F → Parsed (IngestMessage F) → IngestMessage F
    message_or m (accepted a) = a
    message_or m (rejected e) = m

    unless_far :
        (far : Bool) (stamp : Stamp F)
        → is_finite_stamp stamp ≡ true
        → Holds is_finite_stamp (if far then rejected timestamp_skewed else accepted stamp)
    unless_far true stamp e = tt
    unless_far false stamp e = e

    check_skew-Holds :
        (guard : Option F) (now : F) (stamp : Stamp F)
        → is_finite_stamp stamp ≡ true
        → Holds is_finite_stamp (check_skew floats iso_to_ns guard now stamp)
    unfolding check_skew
    check_skew-Holds none now stamp e = e
    check_skew-Holds (some limit) now unset e = refl
    check_skew-Holds (some limit) now (whole s n) e =
        unless_far (floats.is_far limit now (seconds_of floats iso_to_ns s n)) (whole s n) e
    check_skew-Holds (some limit) now (fraction f) e =
        unless_far (floats.is_far limit now f) (fraction f) e

    joined :
        (n : Parsed Text) (v : Parsed F) (t : Parsed (Option Tags)) (s : Parsed (Stamp F))
        (guarded : Stamp F → Parsed (Stamp F)) (m : IngestMessage F)
        → Holds is_named n
        → Holds floats.is_finite v
        → Holds is_finite_stamp s
        → ((given : Stamp F) → is_finite_stamp given ≡ true → Holds is_finite_stamp (guarded given))
        → and_then {B = IngestMessage F} n (λ metric. and_then {B = IngestMessage F} v (λ value.
          and_then {B = IngestMessage F} t (λ tags. and_then {B = IngestMessage F} s (λ given.
            and_then {B = IngestMessage F} (guarded given) (λ stamp.
              accepted
                (record { metric = metric; value = value; tags = tags; timestamp = stamp }))))))
          ≡ accepted m
        → IsMessage m
    joined (accepted n) (accepted v) (accepted t) (accepted s) guarded m a b c d e =
        last (guarded s) (d s c) e
      where
        last :
            (g : Parsed (Stamp F))
            → Holds is_finite_stamp g
            → and_then {B = IngestMessage F} g
                (λ stamp. accepted (record { metric = n; value = v; tags = t; timestamp = stamp }))
              ≡ accepted m
            → IsMessage m
        last (accepted stamp) h q = subst IsMessage (ap (message_or m) q) (a, b, h)
        last (rejected r) h q = cc
    joined (accepted n) (accepted v) (accepted t) (rejected s) guarded m a b c d e = cc
    joined (accepted n) (accepted v) (rejected t) s guarded m a b c d e = cc
    joined (accepted n) (rejected v) t s guarded m a b c d e = cc
    joined (rejected n) v t s guarded m a b c d e = cc

    -- A message that is accepted has a metric that is not empty, a finite value, and no timestamp
    -- that is a float and not finite, provided that integers become finite floats.
    pub parse_ingest_sound :
        (guard : Option F) (now : F) (j : Json F) (m : IngestMessage F)
        → ((s : Bool) (n : ℕ) → floats.is_finite (floats.of_int s n) ≡ true)
        → parse_ingest floats iso_to_ns guard now j ≡ accepted m
        → IsMessage m
    unfolding parse_ingest
    parse_ingest_sound guard now (object raw) m ints e =
        joined (check_name sqtseries.Protocol.bad_metric (get metric_name raw))
          (check_value floats iso_to_ns (get value_name raw)) (check_tags (get tags_name raw))
          (check_timestamp floats iso_to_ns (get timestamp_name raw))
          (check_skew floats iso_to_ns guard now) m
          (check_name-Holds sqtseries.Protocol.bad_metric (get metric_name raw))
          (check_value-Holds (get value_name raw) ints)
          (check_timestamp-Holds (get timestamp_name raw)) (check_skew-Holds guard now) e
    parse_ingest_sound guard now null m ints e = cc
    parse_ingest_sound guard now (bool b) m ints e = cc
    parse_ingest_sound guard now (int s n) m ints e = cc
    parse_ingest_sound guard now (float f) m ints e = cc
    parse_ingest_sound guard now (text t) m ints e = cc
    parse_ingest_sound guard now (array es) m ints e = cc
