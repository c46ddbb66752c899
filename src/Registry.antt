-- ===== src/Registry.antt =====
-- messaging/connection_registry.py: which WebSocket connections and ZMQ subscribers there are. The
-- clock is an argument, and an operation returns the event that it gives to the listeners, whose
-- calls are left out. A connection id is a text.
pub mod Counts
pub mod Topics
use sqtseries.Prelude.{
  ℕ, zero, suc, ◌+◌, ◌-◌, ◌*◌, ◌/◌, ◌%◌, ◌^◌, ◌≤◌, ◌<◌, min, max, String, ◌≡◌, refl, sym, ap, ◌∙◌,
  ◌≢◌, ◌↔◌, ◌⊎◌, inl, inr, Bool, true, false, ◌&&◌, ◌||◌, not, Option, none, some, List, [], ◌∷◌,
  ◌++◌, map, arith, ltb, leb, ◌==◌, if◌then◌else◌, ltb→lt, lt→ltb, leb→le, ==_iff, Bool-cases,
  Option-cases, Eq, eq_of_discrete, string_discrete, pair_eq, option_eq, nat_eq, string_eq, length,
  take, drop, keep, length-append, length-take, length-drop, length-keep-le, All, All-append,
}
use sqtseries.Prelude.Sorted.{sorted}
use sqtseries.Prelude.Text.{Text, text_eq, text_le, member}
use sqtseries.Dict.{lookup, assign, without, total}

pub record Connection : Type 0 where
  pub peer : Text
  pub topic : Text
  pub connected_at : ℕ
  pub last_activity_at : ℕ

pub record Registry : Type 0 where
  pub ws : List (Text × Connection)
  pub zmq_subs : List (Text × ℕ)
  pub zmq_first_seen : List (Text × ℕ)
  pub zmq_known : List (Text × ℕ)

abbrev pub init : Registry
init = record { ws = []; zmq_subs = []; zmq_first_seen = []; zmq_known = [] }

pub data Event : Type 0 where
  joined : Text → Connection → Event
  gone : Text → Connection → ℕ → Event
  arrived : Text → ℕ → ℕ → Event
  departed : Text → ℕ → ℕ → Option ℕ → Event

unfoldable pub register_ws : Text → Text → Text → ℕ → Registry → Registry × Event
unfolding assign
register_ws conn_id peer topic now reg =
    let entry : Connection = record {
      peer = peer;
      topic = topic;
      connected_at = now;
      last_activity_at = now;
    } in
    (record reg { ws = assign conn_id entry reg.ws }, joined conn_id entry)

unfoldable pub unregister_ws : Text → ℕ → Registry → Registry × Option Event
unfolding lookup without
unregister_ws conn_id now reg = elim (lookup conn_id reg.ws) [
  | none ↦ (reg, none)
  | some entry ↦ (record reg { ws = without conn_id reg.ws }, some (gone conn_id entry now))
]

abbrev pub count_or_zero : Option ℕ → ℕ
count_or_zero none = 0
count_or_zero (some n) = n

-- `d.setdefault(k, v)`
unfoldable pub setdefault : Text → ℕ → List (Text × ℕ) → List (Text × ℕ)
unfolding lookup assign
setdefault k v d = elim (lookup k d) [ none ↦ assign k v d | some w ↦ d ]

unfoldable pub register_zmq_sub : Text → ℕ → Registry → Registry × Event
unfolding lookup assign setdefault
register_zmq_sub topic now reg =
    let count = count_or_zero (lookup topic reg.zmq_subs) + 1 in
    (
      record reg {
        zmq_subs = assign topic count reg.zmq_subs;
        zmq_first_seen =
            if count == 1 then assign topic now reg.zmq_first_seen else reg.zmq_first_seen;
        zmq_known = setdefault topic now reg.zmq_known;
      },
      arrived topic count now,
    )

-- The source's count is an `int` that is tested for `<= 0`.
unfoldable pub unregister_zmq_sub : Text → ℕ → Registry → Registry × Event
unfolding lookup assign without
unregister_zmq_sub topic now reg =
    let count = count_or_zero (lookup topic reg.zmq_subs) - 1 in
    let first_seen = lookup topic reg.zmq_first_seen in
    if count == 0
    then (
      record reg {
        zmq_subs = without topic reg.zmq_subs;
        zmq_first_seen = without topic reg.zmq_first_seen;
      },
      departed topic 0 now first_seen,
    )
    else (
      record reg { zmq_subs = assign topic count reg.zmq_subs },
      departed topic count now first_seen,
    )

unfoldable pub touch_ws : Text → ℕ → Registry → Registry
unfolding lookup assign
touch_ws conn_id now reg = elim (lookup conn_id reg.ws) [
  | none ↦ reg
  | some entry ↦ record reg { ws = assign conn_id (record entry { last_activity_at = now }) reg.ws }
]

abbrev pub age : ℕ → Text × Connection → ℕ
age now p = now - p.1.last_activity_at

-- the connections that are idle for the timeout or longer, the longest idle first
unfoldable pub sweep_stale : ℕ → ℕ → Option ℕ → Registry → List (Text × Connection)
unfolding sorted
sweep_stale now timeout batch_size reg =
    let stale =
      sorted (λ p q. leb (age now q) (age now p)) (keep (λ p. leb timeout (age now p)) reg.ws) in
    elim batch_size [ none ↦ stale | some n ↦ take n stale ]

unfoldable pub check_connection : Text → Registry → Bool
unfolding lookup
check_connection conn_id reg = elim (lookup conn_id reg.ws) [ none ↦ false | some c ↦ true ]

unfoldable pub list_connections : Registry → List (Text × Connection)
unfolding sorted
list_connections reg = sorted (λ p q. leb p.1.connected_at q.1.connected_at) reg.ws

-- `if topic` is false for no topic and for the empty one
unfoldable pub subscriber_count : Option Text → Registry → ℕ
unfolding lookup
subscriber_count none reg = total (λ n. n) reg.zmq_subs
subscriber_count (some []) reg = total (λ n. n) reg.zmq_subs
subscriber_count (some (c ∷ topic)) reg = count_or_zero (lookup (c ∷ topic) reg.zmq_subs)

unfoldable pub active_topics : Registry → List Text
unfolding sorted text_le
active_topics reg = sorted text_le (map (λ p. p.0) reg.zmq_subs)

pub record TopicEntry : Type 0 where
  pub topic : Text
  pub subscribers : ℕ
  pub first_seen : Option ℕ

unfoldable pub known_topics : Registry → List TopicEntry
unfolding sorted text_le lookup
known_topics reg =
    map
      (λ p. record {
        topic = p.0;
        subscribers = count_or_zero (lookup p.0 reg.zmq_subs);
        first_seen = some p.1;
      })
      (sorted (λ p q. text_le p.0 q.0) reg.zmq_known)

pub record MergedTopic : Type 0 where
  pub entry : TopicEntry
  pub rows : Option ℕ

-- `totals.get(topic)`: missing and None are the same
abbrev pub total_of : Option (Option ℕ) → Option ℕ
total_of none = none
total_of (some t) = t

-- an entry of a known topic, where an unknown total is 0
unfoldable pub known_rows : List (Text × Option ℕ) → List TopicEntry → List MergedTopic
unfolding lookup
known_rows totals [] = []
known_rows totals (x ∷ known) =
    record { entry = x; rows = some (count_or_zero (total_of (lookup x.topic totals))) }
    ∷ known_rows totals known

-- a topic that has only stored rows
unfoldable pub stored_rows : List (Text × Option ℕ) → List Text → List MergedTopic
unfolding lookup
stored_rows totals [] = []
stored_rows totals (metric ∷ metrics) =
    record {
      entry = record { topic = metric; subscribers = 0; first_seen = none };
      rows = total_of (lookup metric totals);
    }
    ∷ stored_rows totals metrics

unfoldable pub merge_topics :
    List TopicEntry → List Text → List (Text × Option ℕ) → List MergedTopic
unfolding known_rows stored_rows
merge_topics known_topics stored_metrics totals =
    let seen = map (λ (x : TopicEntry). x.topic) known_topics in
    known_rows totals known_topics
    ++ stored_rows totals (keep (λ metric. not (member metric seen)) stored_metrics)
