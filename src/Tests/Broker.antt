-- ===== src/Tests/Broker.antt =====
-- Two clients, a broker for one request at a time, and a handler that doubles a digit.
use sqtseries.Prelude.{ℕ, ◌*◌, ◌≡◌, refl, true, Option, none, some, List, [], ◌∷◌, nat_eq}
use sqtseries.Prelude.Text.{Text}
use sqtseries.Prelude.Pick.{pick}
use sqtseries.Broker.{
  Outcome, returned, Request, run_once, enter_router, leave_router, enter, leave, begin_dispatch,
  handle, dispatch, within, reply_to, send_reply, stop, send_router, last, init, error,
  query_timeout,
}
use sqtseries.Broker as Source
use sqtseries.Broker.History.{Event, runs, begins, finishes, stops, start, run, step, IsAnswered}
use sqtseries.Broker.Answers.{run-IsAnswered}

abbrev loads : Text → Option ℕ
loads [] = none
loads (c ∷ raw) = some c

-- the handler takes as long as the digit says
abbrev handler : Option (ℕ → Outcome ℕ × ℕ)
handler = some (λ n. (returned (2 * n), n))

abbrev request : ℕ → ℕ → Request
request id n = record { identity = id ∷ []; frames = [] ∷ (n ∷ []) ∷ [] }

abbrev events : List Event
events =
    runs (some (request 1 3))
    ∷ runs (some (request 2 4))
    ∷ begins 0
    ∷ finishes 0 true true
    ∷ runs (some (request 2 9))
    ∷ begins 0
    ∷ stops
    ∷ runs (some (request 1 2))
    ∷ []

-- The second call sheds; the request is still on the socket and the third call takes another, which
-- is counted when it begins.
one_shed :
    ((run loads handler events (start (some 5) 1)).broker.shed_total ≡ 1)
    × ((run loads handler events (start (some 5) 1)).accepted ≡ (1 ∷ []) ∷ (2 ∷ []) ∷ [])
    × ((run loads handler events (start (some 5) 1)).broker.requests ≡ 2)
unfolding run step run_once enter_router leave_router enter leave begin_dispatch dispatch within
    reply_to send_reply send_router stop last init Source.start pick
one_shed = (refl, refl, refl)

too_slow :
    handle loads handler (9 ∷ []) (init (some 5) 1)
    ≡ (record (init (some 5) 1) { requests = 1; errors = 1 }, error query_timeout)
unfolding handle enter leave begin_dispatch dispatch within reply_to init
too_slow = refl

run-IsAnswered_example : IsAnswered loads handler (run loads handler events (start (some 5) 1))
run-IsAnswered_example = run-IsAnswered loads handler (some 5) 1 events
