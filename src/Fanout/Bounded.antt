-- ===== src/Fanout/Bounded.antt =====
-- messaging/fanout.py: the bytes in the queues over sequences of calls.
use sqtseries.Fanout.{take_next}
use sqtseries.Prelude.Text.{text_eq}
use sqtseries.Prelude.{Option-cases, inl, inr, refl}
use sqtseries.Fanout.{init, new_subscriber, attach, detach, deliver, recv, stop, fanout_id, Hub}
use sqtseries.Dict.{
  lookup, assign, without-IsDict, assign-IsDict, All-without, All-assign, lookup-All,
  map_values-IsDict,
}
use sqtseries.Prelude.{
  ℕ, ◌+◌, ◌-◌, ◌≤◌, max, ◌≡◌, refl, ap, Option, none, some, List, [], ◌∷◌, ◌++◌, arith, nat_eq,
  string_eq, length, All,
}
use sqtseries.Prelude.Text.{Text, text_eq}
use sqtseries.Dict.{IsDict, map_values}
use sqtseries.Fanout.{Frame, Subscriber, Hub, offer, deliver_all}

abbrev pub size : Option Frame → ℕ
size none = 0
size (some f) = length f.1

-- the payload bytes in a queue
abbrev pub weight : List (Option Frame) → ℕ
weight [] = 0
weight (x ∷ queue) = size x + weight queue

-- the bytes of the largest frame
abbrev pub largest : List (Option Frame) → ℕ
largest [] = 0
largest (x ∷ queue) = max (size x) (largest queue)

pub record IsBounded (queue_bytes : ℕ) (sub : Subscriber) : Type 0 where
  pub configured : sub.queue_bytes ≡ queue_bytes
  pub counted : sub.pending_bytes ≡ weight sub.queue
  pub light : sub.pending_bytes ≤ max queue_bytes (largest sub.queue)

pub record IsHealthy (queue_bytes : ℕ) (hub : Hub) : Type 0 where
  pub kept : hub.queue_bytes ≡ queue_bytes
  pub distinct : IsDict hub.subs
  pub bounded : All (λ p. IsBounded queue_bytes p.1) hub.subs

weight-append :
    (x : Option Frame) (q : List (Option Frame)) → weight (q ++ x ∷ []) ≡ weight q + size x
weight-append x [] = omega arith
weight-append x (y ∷ q) = omega (arith, weight-append x q)

largest-append :
    (x : Option Frame) (q : List (Option Frame)) → largest (q ++ x ∷ []) ≡ max (largest q) (size x)
largest-append x [] = omega arith
largest-append x (y ∷ q) = omega (arith, largest-append x q)

largest_le : (q : List (Option Frame)) → largest q ≤ weight q
largest_le [] = omega arith
largest_le (x ∷ q) = omega (arith, largest_le q)

offer-IsBounded :
    (n : ℕ) (topic : Text) (payload : List ℕ) (sub : Subscriber)
    → IsBounded n sub
    → IsBounded n (offer topic payload sub).0
unfolding offer
offer-IsBounded n topic payload sub b = ground (
  arith,
  weight-append (some (topic, payload)) sub.queue,
  largest-append (some (topic, payload)) sub.queue,
)

pub deliver_all-map :
    (topic : Text) (payload : List ℕ) (subs : List (Text × Subscriber))
    → (deliver_all topic payload subs).0 ≡ map_values (λ s. (offer topic payload s).0) subs
unfolding deliver_all
deliver_all-map topic payload [] = refl
deliver_all-map topic payload ((k, s) ∷ subs) =
    ap (◌∷◌ (k, (offer topic payload s).0)) (deliver_all-map topic payload subs)

map_values-IsBounded :
    (n : ℕ) (f : Subscriber → Subscriber) (subs : List (Text × Subscriber))
    → ((s : Subscriber) → IsBounded n s → IsBounded n (f s))
    → All (λ p. IsBounded n p.1) subs
    → All (λ p. IsBounded n p.1) (map_values f subs)
map_values-IsBounded n f [] step h = tt
map_values-IsBounded n f ((k, s) ∷ subs) step h =
    (step s h.0, map_values-IsBounded n f subs step h.1)

stopped-IsBounded :
    (n : ℕ) (s : Subscriber)
    → IsBounded n s
    → IsBounded n (record s { queue = s.queue ++ none ∷ [] })
stopped-IsBounded n s b = ground (arith, weight-append none s.queue, largest-append none s.queue)

-- One item fewer in the queue.
taken-IsBounded :
    (n : ℕ) (x : Option Frame) (q : List (Option Frame)) (s : Subscriber)
    → s.queue ≡ x ∷ q
    → IsBounded n s
    → IsBounded n (record s { queue = q; pending_bytes = s.pending_bytes - size x })
taken-IsBounded n x q s e b = ground (arith, largest_le q, ap weight e, ap largest e)

-- A call of the hub's methods.
pub data Call : Type 0 where
  attach_call : Text → Option Text → Call
  detach_call : Text → Call
  deliver_call : Text → List ℕ → Call
  recv_call : Text → Call
  stop_call : Call

abbrev pub call : Call → Hub → Hub
call (attach_call topic conn_id) hub = (attach topic conn_id hub).0
call (detach_call conn_id) hub = detach conn_id hub
call (deliver_call topic payload) hub = (deliver topic payload hub).0
call (recv_call conn_id) hub = (recv conn_id hub).0
call stop_call hub = stop hub

unfoldable pub run : List Call → Hub → Hub
run [] hub = hub
run (c ∷ calls) hub = run calls (call c hub)

assigned-IsHealthy :
    (n : ℕ) (k : Text) (s : Subscriber) (hub : Hub)
    → IsHealthy n hub
    → IsBounded n s
    → IsHealthy n (record hub { subs = assign k s hub.subs })
assigned-IsHealthy n k s hub h b = record {
  kept = h.kept;
  distinct = assign-IsDict k s hub.subs h.distinct;
  bounded = All-assign (λ p. IsBounded n p.1) k s hub.subs h.bounded b;
}

new-IsBounded :
    (k topic : Text) (n : ℕ) (hub : Hub)
    → IsHealthy n hub
    → IsBounded n (new_subscriber k topic hub.queue_bytes)
new-IsBounded k topic n hub h = record { configured = h.kept; counted = refl; light = omega arith }

take_next-IsHealthy :
    (n : ℕ) (k : Text) (s : Subscriber) (q : List (Option Frame)) (hub : Hub)
    → s.queue ≡ q
    → IsBounded n s
    → IsHealthy n hub
    → IsHealthy n (take_next k s q hub).0
unfolding take_next
take_next-IsHealthy n k s [] hub e b h = h
take_next-IsHealthy n k s (none ∷ q) hub e b h =
    let t = taken-IsBounded n none q s e b in
    assigned-IsHealthy n k (record s { queue = q }) hub h
      (record {
        configured = b.configured;
        counted = omega (arith, t.counted);
        light = omega (arith, t.light);
      })
take_next-IsHealthy n k s (some f ∷ q) hub e b h =
    assigned-IsHealthy n k _ hub h (taken-IsBounded n (some f) q s e b)

recv-IsHealthy : (n : ℕ) (k : Text) (hub : Hub) → IsHealthy n hub → IsHealthy n (recv k hub).0
unfolding recv
recv-IsHealthy n k hub h = elim (Option-cases (lookup k hub.subs)) [
  | inl absent ↦ rw (absent, recv) h
  | inr (s, found) ↦
      rw (found, recv)
        (take_next-IsHealthy n k s s.queue hub refl
          (lookup-All (λ p. IsBounded n p.1) k s hub.subs h.bounded found) h)
]

call-IsHealthy : (n : ℕ) (c : Call) (hub : Hub) → IsHealthy n hub → IsHealthy n (call c hub)
unfolding attach detach deliver stop
call-IsHealthy n (attach_call topic none) hub h =
    let a =
      assigned-IsHealthy n (fanout_id (hub.sub_seq + 1)) _ hub h
        (new-IsBounded (fanout_id (hub.sub_seq + 1)) topic n hub h) in
    record { kept = a.kept; distinct = a.distinct; bounded = a.bounded }
call-IsHealthy n (attach_call topic (some k)) hub h =
    assigned-IsHealthy n k _ hub h (new-IsBounded k topic n hub h)
call-IsHealthy n (detach_call k) hub h = record {
  kept = h.kept;
  distinct = without-IsDict k hub.subs h.distinct;
  bounded = All-without (λ p. IsBounded n p.1) k hub.subs h.bounded;
}
call-IsHealthy n (deliver_call topic payload) hub h =
    let step : Subscriber → Subscriber = λ s. (offer topic payload s).0 in
    rw (deliver_all-map topic payload hub.subs) (record {
      kept = h.kept;
      distinct = map_values-IsDict step hub.subs h.distinct;
      bounded =
          map_values-IsBounded n step hub.subs (λ s. offer-IsBounded n topic payload s) h.bounded;
    })
call-IsHealthy n (recv_call k) hub h = recv-IsHealthy n k hub h
call-IsHealthy n stop_call hub h =
    let step : Subscriber → Subscriber = λ s. record s { queue = s.queue ++ none ∷ [] } in
    record {
      kept = h.kept;
      distinct = map_values-IsDict step hub.subs h.distinct;
      bounded = map_values-IsBounded n step hub.subs (stopped-IsBounded n) h.bounded;
    }

run-keeps : (n : ℕ) (calls : List Call) (hub : Hub) → IsHealthy n hub → IsHealthy n (run calls hub)
unfolding run
run-keeps n [] hub h = h
run-keeps n (c ∷ calls) hub h = run-keeps n calls (call c hub) (call-IsHealthy n c hub h)

-- After any calls of a new hub, every connection has one subscriber; its counter is the sum of the
-- payload bytes that are queued, and never more than the configured bound unless a single queued
-- frame has all of them.
pub run-IsHealthy : (n : ℕ) (calls : List Call) → IsHealthy n (run calls (init n))
unfolding init
run-IsHealthy n calls =
    run-keeps n calls (init n) (record { kept = refl; distinct = tt; bounded = tt })
