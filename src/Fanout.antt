-- ===== src/Fanout.antt =====
-- messaging/fanout.py: the hub that gives every live frame to the matching subscribers, each with a
-- queue bounded in bytes. Payloads are lists of bytes. Threads and the event loop are left out: a
-- call runs as a whole, and `recv` on an empty queue is `idle`, its timeout or a longer wait.
pub mod Topics
pub mod Bounded
pub mod Ordered
use sqtseries.Prelude.{
  ℕ, zero, suc, ◌+◌, ◌-◌, ◌*◌, ◌/◌, ◌%◌, ◌^◌, ◌≤◌, ◌<◌, min, max, String, ◌≡◌, refl, sym, ap, ◌∙◌,
  ◌≢◌, ◌↔◌, ◌⊎◌, inl, inr, Bool, true, false, ◌&&◌, ◌||◌, not, Option, none, some, List, [], ◌∷◌,
  ◌++◌, map, arith, ltb, leb, ◌==◌, if◌then◌else◌, ltb→lt, lt→ltb, leb→le, ==_iff, Bool-cases,
  Option-cases, Eq, eq_of_discrete, string_discrete, pair_eq, option_eq, nat_eq, string_eq, length,
  take, drop, keep, length-append, length-take, length-drop, length-keep-le, All, All-append,
}
use sqtseries.Prelude.Text.{Text, text_eq, list_beq, starts_with, ends_in, decimal}
use sqtseries.Dict.{lookup, assign, without}

abbrev pub dot : ℕ
dot = 46

abbrev pub star : ℕ
star = 42

abbrev pub default_subscriber_queue_bytes : ℕ
default_subscriber_queue_bytes = 256 * 1024

unfoldable pub topic_matches : Text → Text → Bool
unfolding starts_with ends_in
topic_matches pattern topic =
    if list_beq pattern (star ∷ [])
    then true
    else if ends_in dot pattern
    then starts_with pattern topic
    else if list_beq topic pattern
    then true
    else starts_with (pattern ++ dot ∷ []) topic

abbrev pub Frame : Type 0
Frame = Text × List ℕ

-- `none` in a queue is the sentinel of `detach` and `stop`.
pub record Subscriber : Type 0 where
  pub conn_id : Text
  pub topic : Text
  pub queue_bytes : ℕ
  pub queue : List (Option Frame)
  pub pending_bytes : ℕ
  pub dropped : ℕ

pub record Hub : Type 0 where
  pub queue_bytes : ℕ
  pub subs : List (Text × Subscriber)
  pub sub_seq : ℕ
  pub published_total : ℕ
  pub dropped_total : ℕ

unfoldable pub init : ℕ → Hub
init queue_bytes = record {
  queue_bytes = queue_bytes;
  subs = [];
  sub_seq = 0;
  published_total = 0;
  dropped_total = 0;
}

abbrev pub new_subscriber : Text → Text → ℕ → Subscriber
new_subscriber conn_id topic queue_bytes = record {
  conn_id = conn_id;
  topic = topic;
  queue_bytes = queue_bytes;
  queue = [];
  pending_bytes = 0;
  dropped = 0;
}

-- `f"fanout-{n}"`
unfoldable pub fanout_id : ℕ → Text
unfolding decimal
fanout_id n = 102 ∷ 97 ∷ 110 ∷ 111 ∷ 117 ∷ 116 ∷ 45 ∷ decimal n

unfoldable pub attach : Text → Option Text → Hub → Hub × Text
unfolding assign
attach topic none hub =
    let conn_id = fanout_id (hub.sub_seq + 1) in
    (
      record hub {
        subs = assign conn_id (new_subscriber conn_id topic hub.queue_bytes) hub.subs;
        sub_seq = hub.sub_seq + 1;
      },
      conn_id,
    )
attach topic (some conn_id) hub = (
  record hub { subs = assign conn_id (new_subscriber conn_id topic hub.queue_bytes) hub.subs },
  conn_id,
)

-- The sentinel goes to an object that only a call of `recv` in progress still holds.
unfoldable pub detach : Text → Hub → Hub
unfolding without
detach conn_id hub = record hub { subs = without conn_id hub.subs }

unfoldable pub subscriber_count : Hub → ℕ
subscriber_count hub = length hub.subs

pub data Outcome : Type 0 where
  skipped delivered refused : Outcome

-- one round of the loop of `deliver`
unfoldable pub offer : Text → List ℕ → Subscriber → Subscriber × Outcome
unfolding topic_matches
offer topic payload sub =
    let fits = leb (sub.pending_bytes + length payload) sub.queue_bytes in
    let oversized_single = sub.pending_bytes == 0 && ltb sub.queue_bytes (length payload) in
    if not (topic_matches sub.topic topic)
    then (sub, skipped)
    else if not fits && not oversized_single
    then (record sub { dropped = sub.dropped + 1 }, refused)
    else (
      record sub {
        pending_bytes = sub.pending_bytes + length payload;
        queue = sub.queue ++ some (topic, payload) ∷ [];
      },
      delivered,
    )

abbrev pub is_delivered : Outcome → ℕ
is_delivered delivered = 1
is_delivered _ = 0

abbrev pub is_refused : Outcome → ℕ
is_refused refused = 1
is_refused _ = 0

-- the subscribers after the loop, the deliveries and the drops
unfoldable pub deliver_all :
    Text → List ℕ → List (Text × Subscriber) → List (Text × Subscriber) × ℕ × ℕ
unfolding offer
deliver_all topic payload [] = ([], 0, 0)
deliver_all topic payload ((k, sub) ∷ subs) =
    let (sub', outcome) = offer topic payload sub in
    let (subs', count, drops) = deliver_all topic payload subs in
    ((k, sub') ∷ subs', is_delivered outcome + count, is_refused outcome + drops)

unfoldable pub deliver : Text → List ℕ → Hub → Hub × ℕ
unfolding deliver_all
deliver topic payload hub =
    let (subs, count, drops) = deliver_all topic payload hub.subs in
    (
      record hub {
        subs = subs;
        published_total = hub.published_total + 1;
        dropped_total = hub.dropped_total + drops;
      },
      count,
    )

pub data Received : Type 0 where
  frame : Frame → Received
  closed idle : Received

-- what `recv` does with the item that `queue.get` takes
unfoldable pub take_next : Text → Subscriber → List (Option Frame) → Hub → Hub × Received
unfolding assign
take_next conn_id sub [] hub = (hub, idle)
take_next conn_id sub (none ∷ queue) hub =
    (record hub { subs = assign conn_id (record sub { queue = queue }) hub.subs }, closed)
take_next conn_id sub (some item ∷ queue) hub =
    let left = record sub { queue = queue; pending_bytes = sub.pending_bytes - length item.1 } in
    (record hub { subs = assign conn_id left hub.subs }, frame item)

unfoldable pub recv : Text → Hub → Hub × Received
unfolding lookup take_next
recv conn_id hub = elim (lookup conn_id hub.subs) [
  | none ↦ (hub, closed)
  | some sub ↦ take_next conn_id sub sub.queue hub
]

unfoldable pub stop : Hub → Hub
stop hub = record hub {
  subs = map (λ p. (p.0, record p.1 { queue = p.1.queue ++ none ∷ [] })) hub.subs;
}
