-- ===== src/Tests/Fanout.antt =====
-- A hub with two subscribers and a bound of five bytes.
use sqtseries.Prelude.{
  ◌+◌, ◌≡◌, refl, ◌&&◌, none, some, List, [], ◌∷◌, ◌++◌, ltb, nat_eq, string_eq, length,
}
use sqtseries.Prelude.Text.{Text, text_eq}
use sqtseries.Dict.{lookup}
use sqtseries.Fanout.{Hub, Subscriber, init, topic_matches, attach, deliver, recv, dot, fanout_id}
use sqtseries.Fanout.Topics.{segments, begins, topic_matches-segments}
use sqtseries.Fanout.Bounded.{
  Call, attach_call, deliver_call, recv_call, IsHealthy, run, run-IsHealthy,
}
use sqtseries.Fanout.Ordered.{
  matching, deliver-matching, Traffic, publish, receive, run_traffic, all_accepted, all_received,
  frames, run_traffic-in_order,
}

abbrev cpu : Text
cpu = 99 ∷ 112 ∷ 117 ∷ []

abbrev load : Text
load = 99 ∷ 112 ∷ 117 ∷ dot ∷ 108 ∷ []

abbrev calls : List Call
calls =
    attach_call cpu none
    ∷ attach_call load (some cpu)
    ∷ deliver_call load (1 ∷ 2 ∷ 3 ∷ [])
    ∷ deliver_call load (4 ∷ 5 ∷ 6 ∷ [])
    ∷ recv_call cpu
    ∷ []

abbrev hub : Hub
hub = run calls (init 5)

-- The second frame does not fit, for either subscriber.
hub_dropped : hub.dropped_total ≡ 2
unfolding run init attach deliver recv fanout_id
hub_dropped = refl

run-IsHealthy_example : IsHealthy 5 (run calls (init 5))
run-IsHealthy_example = run-IsHealthy 5 calls

topic_matches-segments_example :
    (topic_matches cpu load ≡ begins (segments cpu) (segments load))
    × (topic_matches (cpu ++ dot ∷ []) load ≡ (
        begins (segments cpu) (segments load)
        && ltb (length (segments cpu)) (length (segments load))))
unfolding topic_matches
topic_matches-segments_example = topic_matches-segments cpu load refl refl

deliver-matching_example :
    ((deliver load (7 ∷ []) hub).0.published_total ≡ hub.published_total + 1)
    × ((deliver load (7 ∷ []) hub).1 + (deliver load (7 ∷ []) hub).0.dropped_total
        ≡ hub.dropped_total + matching load hub.subs)
deliver-matching_example = deliver-matching load (7 ∷ []) hub

abbrev first : Subscriber
first = record {
  conn_id = fanout_id 1;
  topic = cpu;
  queue_bytes = 5;
  queue = some (load, 1 ∷ 2 ∷ 3 ∷ []) ∷ [];
  pending_bytes = 3;
  dropped = 1;
}

hub_first : lookup (fanout_id 1) hub.subs ≡ some first
unfolding run init attach deliver recv lookup fanout_id
hub_first = refl

abbrev traffic : List Traffic
traffic = receive (fanout_id 1) ∷ publish load (8 ∷ []) ∷ receive cpu ∷ []

run_traffic-in_order_example :
    (s' : Subscriber) × (lookup (fanout_id 1) (run_traffic traffic hub).subs ≡ some s')
    × (frames first.queue ++ all_accepted (fanout_id 1) traffic hub
        ≡ all_received (fanout_id 1) traffic hub ++ frames s'.queue)
run_traffic-in_order_example = run_traffic-in_order (fanout_id 1) traffic hub first hub_first
