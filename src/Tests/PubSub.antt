-- ===== src/Tests/PubSub.antt =====
-- A bus with room for two totals, three topics of one letter, and two subscribers to one of them.
use sqtseries.Prelude.{
  ℕ, ◌≡◌, refl, ◌≤◌, ◌⊎◌, max, true, false, Option, none, some, List, [], ◌∷◌, nat_eq, length,
}
use sqtseries.Prelude.Text.{Text, text_eq, member}
use sqtseries.Dict.{lookup}
use sqtseries.Registry.{Registry, count_or_zero}
use sqtseries.PubSub.{PubSub, or_zero, evict, count, init, publish}
use sqtseries.PubSub.Recent.{
  Call, publish_all, serving, latest, recent, keys, topics_of, publish_all-recent,
}
use sqtseries.PubSub.Totals.{publish_all-tallied}
use sqtseries.PubSub.Topics.{Step, reads, run, step, run-tracked}

abbrev call : ℕ → Call
call letter = record { now = 5; topic = letter ∷ []; payload = 1 ∷ 2 ∷ [] }

abbrev calls : List Call
calls = call 97 ∷ call 98 ∷ call 97 ∷ call 99 ∷ call 97 ∷ []

abbrev bus : PubSub
bus = serving 30 2 (sqtseries.Fanout.init 100)

oldest_evicted : (publish_all calls bus).topic_totals ≡ (99 ∷ [], 1) ∷ (97 ∷ [], 3) ∷ []
unfolding publish_all publish evict count init
oldest_evicted = refl

publish_all-recent_example :
    keys (publish_all calls bus).topic_totals ≡ latest (max 1 2) (recent [] (topics_of calls))
publish_all-recent_example = publish_all-recent 30 2 (sqtseries.Fanout.init 100) calls

publish_all-tallied_example :
    ((publish_all calls bus).published ≡ 5)
    × (length (publish_all calls bus).topic_totals ≤ max 1 2)
    × (or_zero (lookup (98 ∷ []) (publish_all calls bus).topic_totals) ≤ 1)
    × ((1 ≤ (publish_all calls bus).topic_totals_evicted)
        ⊎ (or_zero (lookup (98 ∷ []) (publish_all calls bus).topic_totals) ≡ 1))
publish_all-tallied_example = publish_all-tallied 30 2 (sqtseries.Fanout.init 100) calls (98 ∷ [])

abbrev registry : Registry
registry = record { ws = []; zmq_subs = []; zmq_first_seen = []; zmq_known = [] }

abbrev decode : List ℕ → Option Text
decode = some

abbrev frames : List Step
frames =
    reads 1 (1 ∷ 97 ∷ [])
    ∷ reads 2 (1 ∷ 97 ∷ [])
    ∷ reads 3 (1 ∷ 98 ∷ [])
    ∷ reads 4 (0 ∷ 97 ∷ [])
    ∷ []

-- One of the two subscribers is left, in the registry but not in the tracker.
tracker_forgets_the_other :
    (lookup (97 ∷ []) (run decode frames (bus, registry)).1.zmq_subs ≡ some 1)
    × (member (97 ∷ []) (run decode frames (bus, registry)).0.tracker.active ≡ false)
unfolding run step init lookup
tracker_forgets_the_other = (refl, refl)

other_active : member (98 ∷ []) (run decode frames (bus, registry)).0.tracker.active ≡ true
unfolding run step init
other_active = refl

run-tracked_example :
    (1 ≤ count_or_zero (lookup (98 ∷ []) (run decode frames (bus, registry)).1.zmq_subs))
    × (lookup (98 ∷ []) (run decode frames (bus, registry)).0.tracker.linger_until ≡ none)
run-tracked_example =
    run-tracked decode 30 2 (sqtseries.Fanout.init 100) registry frames (98 ∷ []) other_active
