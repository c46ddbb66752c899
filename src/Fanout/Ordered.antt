-- ===== src/Fanout/Ordered.antt =====
-- messaging/fanout.py: the account of frames, and their order on the way to a subscriber.
use sqtseries.Prelude.{
  ℕ, ◌+◌, ◌-◌, ◌≡◌, refl, sym, ap, ◌∙◌, inl, inr, false, Option, none, some, List, [], ◌∷◌, ◌++◌,
  arith, if◌then◌else◌, Bool-cases, Option-cases, nat_eq, string_eq, length,
}
use mathlib.Core.List.{append_assoc, append-nil}
use sqtseries.Prelude.Text.{Text, text_eq, list_beq, list_beq_iff}
use sqtseries.Dict.{lookup, lookup-assign, lookup-map_values}
use sqtseries.Fanout.{
  Frame, Subscriber, Hub, delivered, Received, frame, topic_matches, offer, deliver_all, deliver,
  take_next, recv, stop,
}
use sqtseries.Fanout.Bounded.{deliver_all-map}

-- the number of subscribers whose pattern matches
abbrev pub matching : Text → List (Text × Subscriber) → ℕ
matching topic [] = 0
matching topic ((k, s) ∷ subs) =
    (if topic_matches s.topic topic then 1 else 0) + matching topic subs

deliver_all-matching :
    (topic : Text) (payload : List ℕ) (subs : List (Text × Subscriber))
    → (deliver_all topic payload subs).1 + (deliver_all topic payload subs).2 ≡ matching topic subs
unfolding deliver_all offer
deliver_all-matching topic payload [] = refl
deliver_all-matching topic payload ((k, s) ∷ subs) =
    ground (arith, deliver_all-matching topic payload subs)

-- A publication counts once; of the subscribers whose pattern matches, each is a delivery that is
-- reported or a drop that is counted.
pub deliver-matching :
    (topic : Text) (payload : List ℕ) (hub : Hub)
    → ((deliver topic payload hub).0.published_total ≡ hub.published_total + 1)
      × ((deliver topic payload hub).1 + (deliver topic payload hub).0.dropped_total
          ≡ hub.dropped_total + matching topic hub.subs)
unfolding deliver
deliver-matching topic payload hub =
    (refl, omega (arith, deliver_all-matching topic payload hub.subs))

-- what goes between publisher and subscribers while none comes or goes
pub data Traffic : Type 0 where
  publish : Text → List ℕ → Traffic
  receive : Text → Traffic
  stop_all : Traffic

abbrev pub step : Traffic → Hub → Hub
step (publish topic payload) hub = (deliver topic payload hub).0
step (receive conn_id) hub = (recv conn_id hub).0
step stop_all hub = stop hub

-- the frames of a queue, without sentinels
abbrev pub frames : List (Option Frame) → List Frame
frames [] = []
frames (none ∷ queue) = frames queue
frames (some f ∷ queue) = f ∷ frames queue

-- the frame if the subscriber accepts it
abbrev pub accepted_by : Text → List ℕ → Subscriber → List Frame
accepted_by topic payload s = elim (offer topic payload s).1 [
  | delivered ↦ (topic, payload) ∷ []
  | _ ↦ []
]

abbrev pub accepted : Text → Traffic → Hub → List Frame
accepted k (publish topic payload) hub = elim (lookup k hub.subs) [
  | none ↦ []
  | some s ↦ accepted_by topic payload s
]
accepted k _ hub = []

abbrev pub frame_of : Received → List Frame
frame_of (frame f) = f ∷ []
frame_of _ = []

abbrev pub received : Text → Traffic → Hub → List Frame
received k (receive j) hub = if text_eq.beq j k then frame_of (recv j hub).1 else []
received k _ hub = []

unfoldable pub run_traffic : List Traffic → Hub → Hub
run_traffic [] hub = hub
run_traffic (c ∷ calls) hub = run_traffic calls (step c hub)

unfoldable pub all_accepted : Text → List Traffic → Hub → List Frame
all_accepted k [] hub = []
all_accepted k (c ∷ calls) hub = accepted k c hub ++ all_accepted k calls (step c hub)

unfoldable pub all_received : Text → List Traffic → Hub → List Frame
all_received k [] hub = []
all_received k (c ∷ calls) hub = received k c hub ++ all_received k calls (step c hub)

frames-append :
    (q : List (Option Frame)) (r : List (Option Frame)) → frames (q ++ r) ≡ frames q ++ frames r
frames-append [] r = refl
frames-append (none ∷ q) r = frames-append q r
frames-append (some f ∷ q) r = ap (◌∷◌ f) (frames-append q r)

-- one call: what was queued and what is accepted is what is received and what stays queued
abbrev Keeps : Text → Traffic → Hub → Subscriber → Type 0
Keeps k c hub s =
    (s' : Subscriber) × (lookup k (step c hub).subs ≡ some s')
    × (frames s.queue ++ accepted k c hub ≡ received k c hub ++ frames s'.queue)

accepted_by-frames :
    (topic : Text) (payload : List ℕ) (s : Subscriber)
    → frames s.queue ++ accepted_by topic payload s ≡ frames (offer topic payload s).0.queue
unfolding offer
accepted_by-frames topic payload s =
    ground (arith, append-nil (frames s.queue), frames-append s.queue (some (topic, payload) ∷ []))

taken-frames :
    (k : Text) (s : Subscriber) (q : List (Option Frame)) (hub : Hub)
    → s.queue ≡ q
    → lookup k hub.subs ≡ some s
    → (s' : Subscriber) × (lookup k (take_next k s q hub).0.subs ≡ some s')
      × (frames q ≡ frame_of (take_next k s q hub).1 ++ frames s'.queue)
unfolding take_next
taken-frames k s [] hub e found = (s, found, ap frames (sym e))
taken-frames k s (none ∷ q) hub e found = (
  record s { queue = q },
  lookup-assign k k (record s { queue = q }) hub.subs ∙ ground (arith, list_beq_iff k k),
  refl,
)
taken-frames k s (some f ∷ q) hub e found =
    let left : Subscriber = record s { queue = q; pending_bytes = s.pending_bytes - length f.1 } in
    (left, lookup-assign k k left hub.subs ∙ ground (arith, list_beq_iff k k), refl)

-- A receive on another connection leaves this one alone.
take_next-other :
    (k j : Text) (s : Subscriber) (q : List (Option Frame)) (hub : Hub)
    → list_beq j k ≡ false
    → lookup k (take_next j s q hub).0.subs ≡ lookup k hub.subs
unfolding take_next
take_next-other k j s [] hub h = refl
take_next-other k j s (none ∷ q) hub h = lookup-assign j k _ hub.subs ∙ rw h refl
take_next-other k j s (some f ∷ q) hub h = lookup-assign j k _ hub.subs ∙ rw h refl

recv-other :
    (k j : Text) (hub : Hub)
    → list_beq j k ≡ false
    → lookup k (recv j hub).0.subs ≡ lookup k hub.subs
unfolding recv
recv-other k j hub h = elim (Option-cases (lookup j hub.subs)) [
  | inl absent ↦ rw (absent, recv) refl
  | inr (s, found) ↦ rw (found, recv) (take_next-other k j s s.queue hub h)
]

recv-found :
    (k : Text) (hub : Hub) (s : Subscriber)
    → lookup k hub.subs ≡ some s
    → recv k hub ≡ take_next k s s.queue hub
unfolding recv
recv-found k hub s found = rw (found, recv) refl

publish-Keeps :
    (k topic : Text) (payload : List ℕ) (hub : Hub) (s : Subscriber)
    → lookup k hub.subs ≡ some s
    → Keeps k (publish topic payload) hub s
unfolding deliver
publish-Keeps k topic payload hub s found = (
  (offer topic payload s).0,
  ap (lookup k) (deliver_all-map topic payload hub.subs)
      ∙ lookup-map_values (λ x. (offer topic payload x).0) k hub.subs
      ∙ rw found refl,
  rw (found, accepted) (accepted_by-frames topic payload s),
)

receive-Keeps :
    (k j : Text) (hub : Hub) (s : Subscriber)
    → lookup k hub.subs ≡ some s
    → Keeps k (receive j) hub s
receive-Keeps k j hub s found = elim (Bool-cases (list_beq j k)) [
  | inl same ↦
      let e : j ≡ k = (list_beq_iff j k).0 same in
      let (s', after, parts) = taken-frames k s s.queue hub refl found in
      let run : recv j hub ≡ take_next k s s.queue hub =
        ap (λ i. recv i hub) e ∙ recv-found k hub s found in
      (
        s',
        ap (λ x. lookup k x.0.subs) run ∙ after,
        append-nil (frames s.queue) ∙ rw (same, run) parts,
      )
  | inr other ↦ (s, recv-other k j hub other ∙ found, append-nil (frames s.queue) ∙ rw other refl)
]

stop-Keeps :
    (k : Text) (hub : Hub) (s : Subscriber) → lookup k hub.subs ≡ some s → Keeps k stop_all hub s
unfolding stop
stop-Keeps k hub s found = (
  record s { queue = s.queue ++ none ∷ [] },
  lookup-map_values (λ (x : Subscriber). record x { queue = x.queue ++ none ∷ [] }) k hub.subs
      ∙ rw found refl,
  append-nil (frames s.queue)
      ∙ sym (frames-append s.queue (none ∷ []) ∙ append-nil (frames s.queue)),
)

step-Keeps :
    (k : Text) (c : Traffic) (hub : Hub) (s : Subscriber)
    → lookup k hub.subs ≡ some s
    → Keeps k c hub s
step-Keeps k (publish topic payload) hub s found = publish-Keeps k topic payload hub s found
step-Keeps k (receive j) hub s found = receive-Keeps k j hub s found
step-Keeps k stop_all hub s found = stop-Keeps k hub s found

-- While a subscriber stays attached, through any publications, receives of anyone and stops: the
-- frames that were queued followed by those its queue accepted are the frames it has received
-- followed by those still queued. None is lost, doubled or overtaken.
pub run_traffic-in_order :
    (k : Text) (calls : List Traffic) (hub : Hub) (s : Subscriber)
    → lookup k hub.subs ≡ some s
    → (s' : Subscriber) × (lookup k (run_traffic calls hub).subs ≡ some s')
      × (frames s.queue ++ all_accepted k calls hub ≡ all_received k calls hub ++ frames s'.queue)
unfolding run_traffic all_accepted all_received
run_traffic-in_order k [] hub s found = (s, found, append-nil (frames s.queue))
run_traffic-in_order k (c ∷ calls) hub s found =
    let (s1, found1, kept) = step-Keeps k c hub s found in
    let (s2, found2, later) = run_traffic-in_order k calls (step c hub) s1 found1 in
    (
      s2,
      found2,
      sym (append_assoc (frames s.queue) (accepted k c hub) _)
          ∙ ap (λ x. x ++ all_accepted k calls (step c hub)) kept
          ∙ append_assoc (received k c hub) (frames s1.queue) _
          ∙ ap (λ x. received k c hub ++ x) later
          ∙ sym (
              append_assoc (received k c hub) (all_received k calls (step c hub))
                (frames s2.queue)),
    )
