-- ===== src/PubSub.antt =====
-- messaging/pubsub.py: the tracker of topics, the totals of what was published by topic, and the
-- reader of subscription events with the connection registry behind it. Topics are decoded text and
-- payloads are the bytes that `dumps` gives; the decoding of a topic and the send on the socket are
-- parameters.
pub mod Totals
pub mod Recent
pub mod Topics
use sqtseries.Prelude.{
  ℕ, zero, suc, ◌+◌, ◌-◌, ◌*◌, ◌/◌, ◌%◌, ◌^◌, ◌≤◌, ◌<◌, min, max, String, ◌≡◌, refl, sym, ap, ◌∙◌,
  ◌≢◌, ◌↔◌, ◌⊎◌, inl, inr, Bool, true, false, ◌&&◌, ◌||◌, not, Option, none, some, List, [], ◌∷◌,
  ◌++◌, map, arith, ltb, leb, ◌==◌, if◌then◌else◌, ltb→lt, lt→ltb, leb→le, ==_iff, Bool-cases,
  Option-cases, Eq, eq_of_discrete, string_discrete, pair_eq, option_eq, nat_eq, string_eq, length,
  take, drop, keep, length-append, length-take, length-drop, length-keep-le, All, All-append,
}
use sqtseries.Prelude.Text.{Text, text_eq, list_beq, member}
use sqtseries.Dict.{lookup, assign, without, move_to_end}
use sqtseries.Fanout.{Hub, deliver}
use sqtseries.Registry.{Registry, register_zmq_sub, unregister_zmq_sub}

-- `_active` is a set; a topic is in the list once.
pub record SubscriptionTracker : Type 0 where
  pub linger_seconds : ℕ
  pub active : List Text
  pub linger_until : List (Text × ℕ)

unfoldable pub add : Text → List Text → List Text
add topic topics = if member topic topics then topics else topic ∷ topics

unfoldable pub discard : Text → List Text → List Text
discard topic topics = keep (λ t. not (list_beq t topic)) topics

unfoldable pub subscribe : Text → SubscriptionTracker → SubscriptionTracker
unfolding add without
subscribe topic t = record t {
  active = add topic t.active;
  linger_until = without topic t.linger_until;
}

unfoldable pub unsubscribe : Text → ℕ → SubscriptionTracker → SubscriptionTracker
unfolding discard assign
unsubscribe topic now t = record t {
  active = discard topic t.active;
  linger_until = assign topic (now + t.linger_seconds) t.linger_until;
}

unfoldable pub cleanup : ℕ → SubscriptionTracker → SubscriptionTracker
cleanup now t = record t { linger_until = keep (λ p. not (leb p.1 now)) t.linger_until }

pub record PubSub : Type 0 where
  pub topic_totals_max : ℕ
  pub started : Bool
  pub tracker : SubscriptionTracker
  pub published : ℕ
  pub topic_totals : List (Text × ℕ)
  pub topic_totals_evicted : ℕ
  pub fanout : Hub

unfoldable pub init : ℕ → ℕ → Hub → PubSub
init linger_seconds topic_totals_max hub = record {
  topic_totals_max = max 1 topic_totals_max;
  started = false;
  tracker = record { linger_seconds = linger_seconds; active = []; linger_until = [] };
  published = 0;
  topic_totals = [];
  topic_totals_evicted = 0;
  fanout = hub;
}

-- the loop of `publish` that evicts the oldest entries
unfoldable pub evict : ℕ → List (Text × ℕ) → ℕ → List (Text × ℕ) × ℕ
evict cap [] evicted = ([], evicted)
evict cap (entry ∷ totals) evicted =
    let rest = evict cap totals (evicted + 1) in
    if ltb cap (length (entry ∷ totals)) then rest else (entry ∷ totals, evicted)

abbrev pub or_zero : Option ℕ → ℕ
or_zero none = 0
or_zero (some n) = n

-- the count of a publication: the topic's total is one more, and the topic is the newest
unfoldable pub count : Text → List (Text × ℕ) → List (Text × ℕ)
unfolding lookup assign move_to_end
count topic totals = move_to_end topic (assign topic (or_zero (lookup topic totals) + 1) totals)

pub data Published : Type 0 where
  done not_started send_failed : Published

-- `publish` at a reading of the clock, where `sent` says whether the send on the socket returns
unfoldable pub publish : Bool → ℕ → Text → List ℕ → PubSub → PubSub × Published
unfolding cleanup count evict deliver
publish sent now topic payload s =
    let (totals, evicted) =
      evict s.topic_totals_max (count topic s.topic_totals) s.topic_totals_evicted in
    if not s.started
    then (s, not_started)
    else if not sent
    then (record s { tracker = cleanup now s.tracker }, send_failed)
    else (
      record s {
        tracker = cleanup now s.tracker;
        published = s.published + 1;
        topic_totals = totals;
        topic_totals_evicted = evicted;
        fanout = (deliver topic payload s.fanout).0;
      },
      done,
    )

-- the frame that `_recv_one` has read: the kind of the event, 1 for a subscription, and the topic
unfoldable pub recv_one : List ℕ → Option (Bool × List ℕ)
recv_one [] = none
recv_one (kind ∷ topic) =
    if kind == 1 then some (true, topic) else if kind == 0 then some (false, topic) else none

-- one round of `_read_subscriptions`; without an event it sweeps
unfoldable pub read_subscription :
    (List ℕ → Option Text) → ℕ → List ℕ → PubSub × Registry → PubSub × Registry
unfolding recv_one subscribe unsubscribe cleanup register_zmq_sub unregister_zmq_sub
read_subscription decode now frame (s, reg) = elim (recv_one frame) [
  | none ↦ (record s { tracker = cleanup now s.tracker }, reg)
  | some (joins, raw) ↦ elim (decode raw) [
    | none ↦ (s, reg)
    | some topic ↦
        if joins
        then (record s { tracker = subscribe topic s.tracker }, (register_zmq_sub topic now reg).0)
        else (
          record s { tracker = unsubscribe topic now s.tracker },
          (unregister_zmq_sub topic now reg).0,
        )
  ]
]
