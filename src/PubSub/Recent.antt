-- ===== src/PubSub/Recent.antt =====
-- messaging/pubsub.py: which topics keep a total.
use sqtseries.Prelude.{
  ℕ, ◌+◌, ◌≤◌, max, ◌≡◌, refl, sym, ap, ◌∙◌, inl, inr, Bool, true, false, not, List, [], ◌∷◌, ◌++◌,
  map, arith, ltb, leb, if◌then◌else◌, leb→le, Bool-cases, nat_eq, string_eq, length, length-append,
  length-map,
}
use sqtseries.Prelude.Text.{Text, text_eq, list_beq, list_beq_iff}
use sqtseries.Prelude.Distinct.{
  AreDistinct, remove, length-remove, member-keep, keep-AreDistinct, append-AreDistinct,
}
use sqtseries.Dict.{lookup, assign, without, move_to_end-renew, lookup-assign}
use sqtseries.Fanout.{Hub}
use sqtseries.PubSub.{evict, count, or_zero, PubSub, publish, init}

-- the last entries, at most `cap`
unfoldable pub latest {ℓ} : {A : Type ℓ} → ℕ → List A → List A
latest cap [] = []
latest cap (x ∷ xs) = let rest = latest cap xs in if ltb cap (length (x ∷ xs)) then rest else x ∷ xs

abbrev pub keys : List (Text × ℕ) → List Text
keys = map (λ p. p.0)

-- the topics of a list of publications, each where it was published last
unfoldable pub recent : List Text → List Text → List Text
recent topics [] = topics
recent topics (t ∷ published) = recent (remove t topics ++ t ∷ []) published

latest_short {ℓ} : {A : Type ℓ} (cap : ℕ) (l : List A) → length l ≤ cap → latest cap l ≡ l
unfolding latest
latest_short cap [] h = refl
latest_short cap (x ∷ l) h = ground (arith, h)

latest_long {ℓ} :
    {A : Type ℓ} (cap : ℕ) (x : A) (l : List A) → cap ≤ length l → latest cap (x ∷ l) ≡ latest cap l
unfolding latest
latest_long cap x l h = ground (arith, h)

-- An entry more at the front does not matter where there are enough.
latest-older :
    (cap : ℕ) (t x : Text) (l : List Text) (same : Bool)
    → cap ≤ length (remove t l) + 1
    → latest cap (remove t l ++ t ∷ [])
      ≡ latest cap ((if not same then x ∷ remove t l else remove t l) ++ t ∷ [])
latest-older cap t x l true enough = refl
latest-older cap t x l false enough = sym (
    latest_long cap x (remove t l ++ t ∷ [])
      (omega (arith, enough, length-append (remove t l) (t ∷ []))))

-- Forgetting the older topics before one is renewed or after it comes to the same.
latest-renew :
    (cap : ℕ) (t : Text) (l : List Text)
    → AreDistinct l
    → latest cap (remove t (latest cap l) ++ t ∷ []) ≡ latest cap (remove t l ++ t ∷ [])
latest-renew cap t [] d =
    ap (λ k. latest cap (remove t k ++ t ∷ [])) (latest_short cap [] (omega arith))
latest-renew cap t (x ∷ l) d = elim (Bool-cases (leb (length (x ∷ l)) cap)) [
  | inl short ↦
      ap (λ k. latest cap (remove t k ++ t ∷ [])) (latest_short cap (x ∷ l) (leb→le _ _ short))
  | inr long ↦
      let past : cap ≤ length l = ground (arith, long) in
      ap (λ k. latest cap (remove t k ++ t ∷ [])) (latest_long cap x l past)
      ∙ latest-renew cap t l d.1
      ∙ latest-older cap t x l (list_beq x t) (omega (arith, past, length-remove t l d.1))
]

renew-AreDistinct : (t : Text) (l : List Text) → AreDistinct l → AreDistinct (remove t l ++ t ∷ [])
renew-AreDistinct t l d =
    append-AreDistinct (remove t l) (t ∷ []) (keep-AreDistinct _ l d) (refl, tt)
      (λ s h.
        ground
          (arith, h, member-keep (λ u. not (list_beq u t)) s l, list_beq_iff t s, list_beq_iff s t))

evict-keys : (size n : ℕ) (d : List (Text × ℕ)) → keys (evict size d n).0 ≡ latest size (keys d)
unfolding evict latest
evict-keys size n [] = refl
evict-keys size n (p ∷ d) = ground (arith, evict-keys size (n + 1) d, length-map d (λ q. q.0))

keys_append : (c d : List (Text × ℕ)) → keys (c ++ d) ≡ keys c ++ keys d
keys_append [] d = refl
keys_append (p ∷ c) d = ap (◌∷◌ p.0) (keys_append c d)

keys_assigned :
    (t : Text) (v : ℕ) (d : List (Text × ℕ)) → keys (without t (assign t v d)) ≡ remove t (keys d)
unfolding assign without
keys_assigned t v [] = ground (arith, list_beq_iff t t)
keys_assigned t v ((u, w) ∷ d) =
    ground (arith, keys_assigned t v d, keys_without d, list_beq_iff u t)
  where
    keys_without : (e : List (Text × ℕ)) → keys (without t e) ≡ remove t (keys e)
    keys_without [] = refl
    keys_without (p ∷ e) = ground (arith, keys_without e)

pub count-renew :
    (t : Text) (d : List (Text × ℕ))
    → count t d
      ≡ without t (assign t (or_zero (lookup t d) + 1) d) ++ (t, or_zero (lookup t d) + 1) ∷ []
unfolding count
count-renew t d =
    move_to_end-renew t (or_zero (lookup t d) + 1) (assign t (or_zero (lookup t d) + 1) d)
      (ground (arith, lookup-assign t t (or_zero (lookup t d) + 1) d, list_beq_iff t t))

-- the topics after one is counted
count-keys : (t : Text) (d : List (Text × ℕ)) → keys (count t d) ≡ remove t (keys d) ++ t ∷ []
count-keys t d =
    ap keys (count-renew t d)
    ∙ keys_append (without t (assign t (or_zero (lookup t d) + 1) d)) _
    ∙ ap (λ k. k ++ t ∷ []) (keys_assigned t (or_zero (lookup t d) + 1) d)

-- a publication on a socket that takes the frame
pub record Call : Type 0 where
  pub now : ℕ
  pub topic : Text
  pub payload : List ℕ

abbrev pub topics_of : List Call → List Text
topics_of = map (λ c. c.topic)

unfoldable pub publish_all : List Call → PubSub → PubSub
unfolding publish
publish_all [] s = s
publish_all (c ∷ calls) s = publish_all calls (publish true c.now c.topic c.payload s).0

-- what a publication does to the totals
pub record Publishes (c : Call) (s s' : PubSub) : Type 0 where
  pub totals :
      s'.topic_totals
      ≡ (evict s.topic_totals_max (count c.topic s.topic_totals) s.topic_totals_evicted).0
  pub evicted :
      s'.topic_totals_evicted
      ≡ (evict s.topic_totals_max (count c.topic s.topic_totals) s.topic_totals_evicted).1
  pub counted : s'.published ≡ s.published + 1
  pub on : s'.started ≡ true
  pub same_max : s'.topic_totals_max ≡ s.topic_totals_max

pub publish-Publishes :
    (c : Call) (s : PubSub)
    → s.started ≡ true
    → Publishes c s (publish true c.now c.topic c.payload s).0
unfolding publish
publish-Publishes c s on = record {
  totals = ground (arith, on);
  evicted = ground (arith, on);
  counted = ground (arith, on);
  on = ground (arith, on);
  same_max = ground (arith, on);
}

publish_all-keys :
    (calls : List Call) (s : PubSub) (l : List Text)
    → s.started ≡ true
    → AreDistinct l
    → keys s.topic_totals ≡ latest s.topic_totals_max l
    → keys (publish_all calls s).topic_totals
      ≡ latest s.topic_totals_max (recent l (topics_of calls))
unfolding publish_all recent
publish_all-keys [] s l on d k = k
publish_all-keys (c ∷ calls) s l on d k =
    let s' = (publish true c.now c.topic c.payload s).0 in
    let p = publish-Publishes c s on in
    let k' : keys s'.topic_totals ≡ latest s.topic_totals_max (remove c.topic l ++ c.topic ∷ []) =
      ap keys p.totals
      ∙ evict-keys s.topic_totals_max s.topic_totals_evicted (count c.topic s.topic_totals)
      ∙ ap (latest s.topic_totals_max)
          (count-keys c.topic s.topic_totals ∙ ap (λ x. remove c.topic x ++ c.topic ∷ []) k)
      ∙ latest-renew s.topic_totals_max c.topic l d in
    publish_all-keys calls s' (remove c.topic l ++ c.topic ∷ []) p.on
      (renew-AreDistinct c.topic l d)
      (k' ∙ ap (λ n. latest n (remove c.topic l ++ c.topic ∷ [])) (sym p.same_max))
    ∙ ap (λ n. latest n (recent l (topics_of (c ∷ calls)))) p.same_max

-- the bus once its socket is bound
abbrev pub serving : ℕ → ℕ → Hub → PubSub
unfolding init
serving linger_seconds topic_totals_max hub = record (init linger_seconds topic_totals_max hub) {
  started = true;
}

-- After any publications the topics that have a total are the `topic_totals_max` that were published
-- last, one where that setting is 0, in the order of their last publication.
pub publish_all-recent :
    (linger_seconds topic_totals_max : ℕ) (hub : Hub) (calls : List Call)
    → keys (publish_all calls (serving linger_seconds topic_totals_max hub)).topic_totals
      ≡ latest (max 1 topic_totals_max) (recent [] (topics_of calls))
unfolding init
publish_all-recent linger_seconds topic_totals_max hub calls =
    publish_all-keys calls (serving linger_seconds topic_totals_max hub) [] refl tt
      (sym (latest_short (max 1 topic_totals_max) [] (omega arith)))
