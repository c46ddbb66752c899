-- ===== src/PubSub/Topics.antt =====
-- messaging/pubsub.py: the topics of the tracker and the counts of the registry.
use sqtseries.Prelude.{
  ℕ, ◌+◌, ◌-◌, ◌≤◌, ◌≡◌, refl, ap, ◌⊎◌, inl, inr, Bool, true, false, not, Option, none, List, [],
  ◌∷◌, arith, leb, Option-cases, nat_eq, string_eq, keep,
}
use sqtseries.Prelude.Text.{Text, text_eq, list_beq, list_beq_iff, member}
use sqtseries.Prelude.Distinct.{member-keep}
use sqtseries.Dict.{lookup, lookup-assign, lookup-without}
use sqtseries.Registry.{Registry, register_zmq_sub, unregister_zmq_sub, count_or_zero}
use sqtseries.Fanout.{Hub}
use sqtseries.PubSub.Recent.{serving}
use sqtseries.PubSub.{
  SubscriptionTracker, PubSub, publish, init, recv_one, read_subscription, subscribe, unsubscribe,
  cleanup, add, discard,
}

-- A topic that the tracker has as active has subscribers in the registry and does not linger.
pub record IsTracked (t : SubscriptionTracker) (reg : Registry) : Type 0 where
  pub counted :
      (topic : Text) → member topic t.active ≡ true → 1 ≤ count_or_zero (lookup topic reg.zmq_subs)
  pub settled : (topic : Text) → member topic t.active ≡ true → lookup topic t.linger_until ≡ none

member-add :
    (topic t : Text) (l : List Text)
    → member t (add topic l) ≡ true
    → (topic ≡ t) ⊎ (member t l ≡ true)
unfolding add
member-add topic t l h = ground (arith, h, list_beq_iff topic t)

absent_kept :
    (test : Text × ℕ → Bool) (t : Text) (d : List (Text × ℕ))
    → lookup t d ≡ none
    → lookup t (keep test d) ≡ none
unfolding lookup
absent_kept test t [] h = refl
absent_kept test t ((u, n) ∷ d) h = ground (arith, absent_kept test t d)

subscribe-IsTracked :
    (topic : Text) (now : ℕ) (t : SubscriptionTracker) (reg : Registry)
    → IsTracked t reg
    → IsTracked (subscribe topic t) (register_zmq_sub topic now reg).0
unfolding subscribe register_zmq_sub
subscribe-IsTracked topic now t reg k = record {
  counted = λ u h. ground (
    arith,
    lookup-assign topic u (count_or_zero (lookup topic reg.zmq_subs) + 1) reg.zmq_subs,
    member-add topic u t.active h,
    k.counted u,
    list_beq_iff topic u,
  );
  settled = λ u h. ground (
    arith,
    lookup-without topic u t.linger_until,
    member-add topic u t.active h,
    k.settled u,
    list_beq_iff topic u,
  );
}

-- an active topic after an unsubscription is another one
member-discard :
    (topic u : Text) (l : List Text)
    → member u (discard topic l) ≡ true
    → (member u l ≡ true) × (list_beq topic u ≡ false)
unfolding discard
member-discard topic u l h =
    let both = member-keep (λ x. not (list_beq x topic)) u l in
    (ground (arith, h, both), ground (arith, h, both, list_beq_iff topic u, list_beq_iff u topic))

lookup-unregister :
    (topic u : Text) (now : ℕ) (reg : Registry)
    → list_beq topic u ≡ false
    → lookup u (unregister_zmq_sub topic now reg).0.zmq_subs ≡ lookup u reg.zmq_subs
unfolding unregister_zmq_sub
lookup-unregister topic u now reg other = ground (
  arith,
  lookup-without topic u reg.zmq_subs,
  lookup-assign topic u (count_or_zero (lookup topic reg.zmq_subs) - 1) reg.zmq_subs,
  other,
)

unsubscribe-IsTracked :
    (topic : Text) (now : ℕ) (t : SubscriptionTracker) (reg : Registry)
    → IsTracked t reg
    → IsTracked (unsubscribe topic now t) (unregister_zmq_sub topic now reg).0
unfolding unsubscribe
unsubscribe-IsTracked topic now t reg k = record {
  counted = λ u h.
      let (there, other) = member-discard topic u t.active h in
      omega (arith, k.counted u there, ap count_or_zero (lookup-unregister topic u now reg other));
  settled = λ u h.
      let (there, other) = member-discard topic u t.active h in
      ground (
        arith,
        lookup-assign topic u (now + t.linger_seconds) t.linger_until,
        k.settled u there,
        other,
      );
}

cleanup-IsTracked :
    (now : ℕ) (t : SubscriptionTracker) (reg : Registry)
    → IsTracked t reg
    → IsTracked (cleanup now t) reg
unfolding cleanup
cleanup-IsTracked now t reg k = record {
  counted = k.counted;
  settled = λ u h. absent_kept (λ p. not (leb p.1 now)) u t.linger_until (k.settled u h);
}

pub data Step : Type 0 where
  publishes : Bool → ℕ → Text → List ℕ → Step
  reads : ℕ → List ℕ → Step

module _ (decode : List ℕ → Option Text) where
  unfoldable pub step : Step → PubSub × Registry → PubSub × Registry
  unfolding publish read_subscription
  step (publishes sent now topic payload) (s, reg) = ((publish sent now topic payload s).0, reg)
  step (reads now frame) state = read_subscription decode now frame state

  unfoldable pub run : List Step → PubSub × Registry → PubSub × Registry
  unfolding step
  run [] state = state
  run (x ∷ steps) state = run steps (step x state)

  read-IsTracked :
      (now : ℕ) (frame : List ℕ) (s : PubSub) (reg : Registry)
      → IsTracked s.tracker reg
      → IsTracked
          (read_subscription decode now frame (s, reg)).0.tracker
          (read_subscription decode now frame (s, reg)).1
  unfolding read_subscription
  read-IsTracked now frame s reg k = elim (Option-cases (recv_one frame)) [
    | inl idle ↦ rw (idle, read_subscription) (cleanup-IsTracked now s.tracker reg k)
    | inr ((true, raw), joins) ↦ elim (Option-cases (decode raw)) [
      | inl bad ↦ rw (joins, bad, read_subscription) k
      | inr (topic, good) ↦
          rw (joins, good, read_subscription) (subscribe-IsTracked topic now s.tracker reg k)
    ]
    | inr ((false, raw), leaves) ↦ elim (Option-cases (decode raw)) [
      | inl bad ↦ rw (leaves, bad, read_subscription) k
      | inr (topic, good) ↦
          rw (leaves, good, read_subscription) (unsubscribe-IsTracked topic now s.tracker reg k)
    ]
  ]

  publish-IsTracked :
      (sent : Bool) (now : ℕ) (topic : Text) (payload : List ℕ) (s : PubSub) (reg : Registry)
      → IsTracked s.tracker reg
      → IsTracked (publish sent now topic payload s).0.tracker reg
  unfolding publish
  publish-IsTracked sent now topic payload s reg k =
      ground (arith, cleanup-IsTracked now s.tracker reg k)

  run_from-IsTracked :
      (steps : List Step) (s : PubSub) (reg : Registry)
      → IsTracked s.tracker reg
      → IsTracked (run steps (s, reg)).0.tracker (run steps (s, reg)).1
  unfolding run step
  run_from-IsTracked [] s reg k = k
  run_from-IsTracked (publishes sent now topic payload ∷ steps) s reg k =
      run_from-IsTracked steps (publish sent now topic payload s).0 reg
        (publish-IsTracked sent now topic payload s reg k)
  run_from-IsTracked (reads now frame ∷ steps) s reg k =
      run_from-IsTracked steps (read_subscription decode now frame (s, reg)).0
        (read_subscription decode now frame (s, reg)).1 (read-IsTracked now frame s reg k)

  -- After any publications and subscription frames, readable or not, from an empty tracker and any
  -- registry: a topic that the tracker has as active has a subscriber in the registry, and is not
  -- among the lingering topics.
  pub run-tracked :
      (linger_seconds topic_totals_max : ℕ) (hub : Hub) (reg : Registry) (steps : List Step)
      → (topic : Text)
      → member topic (run steps (serving linger_seconds topic_totals_max hub, reg)).0.tracker.active
        ≡ true
      → (1
          ≤ count_or_zero (
              lookup topic
                (run steps (serving linger_seconds topic_totals_max hub, reg)).1.zmq_subs))
        × (lookup topic
              (run steps (serving linger_seconds topic_totals_max hub, reg)).0.tracker.linger_until
            ≡ none)
  unfolding init
  run-tracked linger_seconds topic_totals_max hub reg steps topic h =
      let k = run_from-IsTracked steps (serving linger_seconds topic_totals_max hub) reg (record {
        counted = λ u e. absurd (ground (arith, e));
        settled = λ u e. absurd (ground (arith, e));
      }) in
      (k.counted topic h, k.settled topic h)
