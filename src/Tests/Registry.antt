-- ===== src/Tests/Registry.antt =====
-- Two topics with subscribers that come and go.
use sqtseries.Prelude.{ℕ, ◌≡◌, refl, some, List, [], ◌∷◌, nat_eq, string_eq}
use sqtseries.Prelude.Text.{Text}
use sqtseries.Registry.{init, subscriber_count, register_zmq_sub, unregister_zmq_sub}
use sqtseries.Registry.Counts.{Call, join, leave, run, level, IsConsistent, run-IsConsistent}

abbrev calls : List Call
calls = join (97 ∷ []) 5 ∷ join (97 ∷ []) 6 ∷ leave (98 ∷ []) 7 ∷ leave (97 ∷ []) 8 ∷ []

run-IsConsistent_example :
    IsConsistent (run calls init)
    × ((c : ℕ) (t : Text)
        → subscriber_count (some (c ∷ t)) (run calls init) ≡ level (c ∷ t) calls 0)
run-IsConsistent_example = run-IsConsistent calls

one_left : subscriber_count (some (97 ∷ [])) (run calls init) ≡ 1
unfolding subscriber_count run register_zmq_sub unregister_zmq_sub
one_left = refl
