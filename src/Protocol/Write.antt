-- ===== src/Protocol/Write.antt =====
-- messaging/protocol.py and `write` of client.py: the messages that a client sends.
use sqtseries.Prelude.{ℕ, Bool, Option, none, some, [], ◌∷◌, if◌then◌else◌, nat_eq, string_eq}
use sqtseries.Prelude.Text.{Text}
use sqtseries.Protocol.{
  Floats, Json, null, bool, int, float, text, array, object, Elements, Fields, no_field, field,
  Error, Parsed, accepted, rejected, metric_name, value_name, tags_name, timestamp_name, Stamp,
  unset, whole, fraction, Tags,
}

-- the timestamp that a caller of `write` gives
pub data ClientTime (F : Type 0) : Type 0 where
  none_given : ClientTime F
  seconds : F → ClientTime F
  iso : Text → ClientTime F

module _ {F : Type 0} (floats : Floats F) where
  -- `orjson.dumps` writes null for a float that is not finite
  abbrev pub dump_float : F → Json F
  dump_float f = if floats.is_finite f then float f else null

  abbrev pub tag_fields : Tags → Fields F
  tag_fields [] = no_field
  tag_fields ((k, v) ∷ tags) = field k (text v) (tag_fields tags)

  abbrev pub time_field : ClientTime F → Fields F
  time_field none_given = no_field
  time_field (seconds f) = field timestamp_name (dump_float f) no_field
  time_field (iso t) = field timestamp_name (text t) no_field

  -- the payload of `write`
  unfoldable pub write : Text → F → Tags → ClientTime F → Json F
  write metric value [] time =
      object
        (field metric_name (text metric) (field value_name (dump_float value) (time_field time)))
  write metric value (tag ∷ tags) time = object (
      field metric_name (text metric) (
        field value_name (dump_float value)
          (field tags_name (object (tag_fields (tag ∷ tags))) (time_field time))))

  -- the tags of the message, where no tags and empty ones are the same to `write`
  abbrev pub sent_tags : Tags → Option Tags
  sent_tags [] = none
  sent_tags (tag ∷ tags) = some (tag ∷ tags)

  module _ (iso_to_ns : Text → Option (Bool × ℕ)) where
    -- what the server makes of the time
    abbrev pub sent_time : ClientTime F → Parsed (Stamp F)
    sent_time none_given = accepted unset
    sent_time (seconds f) = accepted (if floats.is_finite f then fraction f else unset)
    sent_time (iso t) = elim (iso_to_ns t) [
      | none ↦ rejected sqtseries.Protocol.timestamp_not_iso
      | some (s, n) ↦ accepted (whole s n)
    ]
