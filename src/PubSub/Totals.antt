-- ===== src/PubSub/Totals.antt =====
-- messaging/pubsub.py: the totals by topic.
use sqtseries.Prelude.{
  ℕ, ◌+◌, ◌≤◌, max, ◌≡◌, refl, sym, ap, ◌∙◌, ◌⊎◌, inl, inr, true, List, [], ◌∷◌, arith, ◌==◌,
  if◌then◌else◌, Bool-cases, nat_eq, string_eq, length, length-map,
}
use sqtseries.Prelude.Text.{Text, text_eq, list_beq, list_beq_iff}
use sqtseries.Prelude.Distinct.{times}
use sqtseries.Dict.{
  lookup, assign, IsDict, lookup-assign, lookup-renew, renew-IsDict, assign-IsDict,
}
use mathlib.Core.Path.{subst}
use sqtseries.Fanout.{Hub}
use sqtseries.PubSub.{evict, count, or_zero, PubSub, publish, init}
use sqtseries.PubSub.Recent.{count-renew, Call, topics_of, publish_all, serving, publish-Publishes}

lookup_same : (a b : Text) (d : List (Text × ℕ)) → a ≡ b → lookup a d ≡ lookup b d
lookup_same a b d e = ap (λ x. lookup x d) e

lookup-count :
    (t j : Text) (d : List (Text × ℕ))
    → or_zero (lookup j (count t d)) ≡ or_zero (lookup j d) + (if list_beq t j then 1 else 0)
lookup-count t j d =
    ap (λ x. or_zero (lookup j x)) (count-renew t d)
    ∙ ground (
      arith,
      lookup-renew t j (or_zero (lookup t d) + 1) (assign t (or_zero (lookup t d) + 1) d),
      lookup-assign t j (or_zero (lookup t d) + 1) d,
      lookup_same t j d,
      list_beq_iff t j,
    )

-- what an eviction leaves of a dictionary
record Evicted (size n : ℕ) (d : List (Text × ℕ)) : Type 0 where
  fewer : length (evict size d n).0 ≤ size
  later : n ≤ (evict size d n).1
  each : (j : Text) → or_zero (lookup j (evict size d n).0) ≤ or_zero (lookup j d)
  whole : (evict size d n).1 ≡ n → (evict size d n).0 ≡ d

evict-Evicted : (size n : ℕ) (d : List (Text × ℕ)) → IsDict d → Evicted size n d
unfolding evict lookup
evict-Evicted size n [] u = record {
  fewer = omega arith;
  later = omega arith;
  each = λ j. omega arith;
  whole = λ e. refl;
}
evict-Evicted size n ((t, v) ∷ d) u =
    let ih = evict-Evicted size (n + 1) d u.1 in
    record {
      fewer = ground (arith, ih.fewer);
      later = ground (arith, ih.later);
      each = λ j. ground (arith, ih.each j, lookup_same t j d, list_beq_iff t j);
      whole = λ e. ground (arith, ih.later, e);
    }

evict-IsDict : (size n : ℕ) (d : List (Text × ℕ)) → IsDict d → IsDict (evict size d n).0
unfolding evict
evict-IsDict size n [] u = u
evict-IsDict size n ((t, v) ∷ d) u = ground (arith, evict-IsDict size (n + 1) d u.1)

count-IsDict : (t : Text) (d : List (Text × ℕ)) → IsDict d → IsDict (count t d)
count-IsDict t d u = subst IsDict (sym (count-renew t d)) (
    renew-IsDict t _ (assign t (or_zero (lookup t d) + 1) d)
      (assign-IsDict t (or_zero (lookup t d) + 1) d u))

-- The totals against what was published since they were `before`.
pub record IsTallied (before after : PubSub) (published : List Text) : Type 0 where
  pub same_max : after.topic_totals_max ≡ before.topic_totals_max
  pub counted : after.published ≡ before.published + length published
  pub later : before.topic_totals_evicted ≤ after.topic_totals_evicted
  pub each :
      (t : Text)
      → or_zero (lookup t after.topic_totals)
        ≤ or_zero (lookup t before.topic_totals) + times t published
  pub exact :
      after.topic_totals_evicted ≡ before.topic_totals_evicted
      → (t : Text)
      → or_zero (lookup t after.topic_totals)
        ≡ or_zero (lookup t before.topic_totals) + times t published

-- distinct topics, and no more than the bound
pub record IsBounded (s : PubSub) : Type 0 where
  pub on : s.started ≡ true
  pub distinct : IsDict s.topic_totals
  pub few : length s.topic_totals ≤ s.topic_totals_max

publish-IsBounded :
    (c : Call) (s : PubSub) → IsBounded s → IsBounded (publish true c.now c.topic c.payload s).0
publish-IsBounded c s b =
    let p = publish-Publishes c s b.on in
    let u = count-IsDict c.topic s.topic_totals b.distinct in
    let left =
      evict-Evicted s.topic_totals_max s.topic_totals_evicted (count c.topic s.topic_totals) u in
    record {
      on = p.on;
      distinct = subst IsDict (sym p.totals) (evict-IsDict s.topic_totals_max _ _ u);
      few = omega (arith, left.fewer, p.same_max, ap length p.totals);
    }

publish-IsTallied :
    (c : Call) (s : PubSub)
    → IsBounded s
    → IsTallied s (publish true c.now c.topic c.payload s).0 (c.topic ∷ [])
publish-IsTallied c s b =
    let p = publish-Publishes c s b.on in
    let u = count-IsDict c.topic s.topic_totals b.distinct in
    let left =
      evict-Evicted s.topic_totals_max s.topic_totals_evicted (count c.topic s.topic_totals) u in
    record {
      same_max = p.same_max;
      counted = p.counted;
      later = omega (arith, left.later, p.evicted);
      each = λ t. omega (
        arith,
        left.each t,
        lookup-count c.topic t s.topic_totals,
        ap (λ d. or_zero (lookup t d)) p.totals,
      );
      exact = λ e t. omega (
        arith,
        lookup-count c.topic t s.topic_totals,
        ap (λ d. or_zero (lookup t d)) (p.totals ∙ left.whole (sym p.evicted ∙ e)),
      );
    }

join-IsTallied :
    (t : Text) (published : List Text) (a b c : PubSub)
    → IsTallied a b (t ∷ [])
    → IsTallied b c published
    → IsTallied a c (t ∷ published)
join-IsTallied t published a b c x y = record {
  same_max = y.same_max ∙ x.same_max;
  counted = omega (arith, x.counted, y.counted);
  later = omega (arith, x.later, y.later);
  each = λ j. omega (arith, x.each j, y.each j);
  exact = λ e j. omega (
    arith,
    x.exact (omega (arith, e, x.later, y.later)) j,
    y.exact (omega (arith, e, x.later, y.later)) j,
  );
}

publish_all-tallies :
    (calls : List Call) (s : PubSub)
    → IsBounded s
    → IsBounded (publish_all calls s) × IsTallied s (publish_all calls s) (topics_of calls)
unfolding publish_all
publish_all-tallies [] s b = (
  b,
  record {
    same_max = refl;
    counted = omega arith;
    later = omega arith;
    each = λ t. omega arith;
    exact = λ e t. omega arith;
  },
)
publish_all-tallies (c ∷ calls) s b =
    let s' = (publish true c.now c.topic c.payload s).0 in
    let (bounded, tallied) = publish_all-tallies calls s' (publish-IsBounded c s b) in
    (
      bounded,
      join-IsTallied c.topic (topics_of calls) s s' (publish_all calls s') (publish-IsTallied c s b)
          tallied,
    )

-- After any publications every one is counted once in `published`, and there are at most
-- `topic_totals_max` totals, one where that setting is 0. The total of a topic is not higher than the
-- number of its publications, and is exactly that unless entries were evicted.
pub publish_all-tallied :
    (linger_seconds topic_totals_max : ℕ) (hub : Hub) (calls : List Call) (t : Text)
    → let s = publish_all calls (serving linger_seconds topic_totals_max hub) in
      (s.published ≡ length calls)
      × (length s.topic_totals ≤ max 1 topic_totals_max)
      × (or_zero (lookup t s.topic_totals) ≤ times t (topics_of calls))
      × ((1 ≤ s.topic_totals_evicted)
          ⊎ (or_zero (lookup t s.topic_totals) ≡ times t (topics_of calls)))
unfolding init lookup
publish_all-tallied linger_seconds topic_totals_max hub calls t =
    let s = serving linger_seconds topic_totals_max hub in
    let b : IsBounded s = record { on = refl; distinct = tt; few = omega arith } in
    let (bounded, tallied) = publish_all-tallies calls s b in
    let s' = publish_all calls s in
    (
      omega (arith, tallied.counted, length-map calls (λ c. c.topic)),
      omega (arith, bounded.few, tallied.same_max),
      omega (arith, tallied.each t),
      elim (Bool-cases (s'.topic_totals_evicted == 0)) [
        | inl none_gone ↦ inr (omega (arith, tallied.exact (ground (arith, none_gone)) t))
        | inr some_gone ↦ inl (ground (arith, some_gone))
      ],
    )
