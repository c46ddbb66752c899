-- ===== src/Broker/Answers.antt =====
-- messaging/broker.py: every accepted request and its reply.
use sqtseries.Prelude.{
  ℕ, ◌+◌, ◌≡◌, refl, ap, ◌∙◌, inl, inr, Bool, true, false, Option, none, some, List, [], ◌∷◌, ◌++◌,
  arith, leb, if◌then◌else◌, Bool-cases, nat_eq, string_eq, length, length-append,
}
use sqtseries.Prelude.Text.{Text}
use sqtseries.Prelude.Distinct.{times-append}
use sqtseries.Prelude.Pick.{pick, weight, Rest, Picked, pick-Picked}
use sqtseries.Broker.{
  Outcome, query_timeout, internal_error, Reply, error, Request, Task, Broker, init, last, dispatch,
  begin_dispatch, reply_to, enter, leave, enter_router, leave_router, Fate, was_sent, was_dropped,
  was_skipped, not_encoded, send_router, send_reply, run_once, stop,
}
use sqtseries.Broker as Source
use sqtseries.Broker.History.{
  History, Event, runs, begins, finishes, stops, taken, is_from, start, begin_one, begin_picked,
  finish_one, finish_picked, step, run, asks, begun_asks, IsAnswered,
}
use sqtseries.Broker.Parts.{enter_router-Entered, leave_router-Left, send_reply-Sent}

module _ {Query Answer : Type 0} (loads : Text → Option Query)
    (handler : Option (Query → Outcome Answer × ℕ)) where
  begin_one-IsAnswered :
      (begun : Bool) (task : Task) (others : List Task) (h : History Answer)
      → task.begun ≡ begun
      → Rest h.broker.router_tasks task others
      → IsAnswered loads handler h
      → IsAnswered loads handler (begin_one loads handler begun task.request others h)
  unfolding begin_one
  begin_one-IsAnswered true task others h e p k = k
  begin_one-IsAnswered false task others h e p k =
      let b : Broker = record h.broker {
        router_tasks = record { request = task.request; begun = true } ∷ others;
      } in
      let d = enter_router-Entered loads handler task.request.frames b in
      let idle : begun_asks loads handler task ≡ 0 = rw e refl in
      record {
        bound = omega (arith, k.bound, p.fewer, ap length d.tasks, d.same_max);
        once =
            λ id. omega (arith, k.once id, p.weighs (is_from id), ap (weight (is_from id)) d.tasks);
        dropped = d.dropped ∙ k.dropped;
        failed = d.failed ∙ k.failed;
        counted = omega (
          arith,
          k.counted,
          d.counted,
          p.weighs (begun_asks loads handler),
          idle,
          ap (weight (begun_asks loads handler)) d.tasks,
        );
        closed = elim k.closed [
          | inl opened ↦ inl (d.same_socket ∙ opened)
          | inr none_left ↦ absurd (omega (arith, p.fewer, ap length none_left))
        ];
        unskipped = k.unskipped;
      }

  finish_one-IsAnswered :
      (begun encodes sends : Bool) (task : Task) (others : List Task) (h : History Answer)
      → task.begun ≡ begun
      → Rest h.broker.router_tasks task others
      → IsAnswered loads handler h
      → IsAnswered loads handler
          (finish_one loads handler begun encodes sends task.request others h)
  unfolding finish_one
  finish_one-IsAnswered false encodes sends task others h e p k = k
  finish_one-IsAnswered true encodes sends task others h e p k =
      let b : Broker = record h.broker { router_tasks = others } in
      let left = leave_router loads handler task.request.frames b in
      let d = leave_router-Left loads handler task.request.frames b in
      let opened : left.0.socket ≡ true = d.same_socket ∙ elim k.closed [
        | inl o ↦ o
        | inr none_left ↦ absurd (omega (arith, p.fewer, ap length none_left))
      ] in
      let r = send_reply-Sent loads handler encodes sends left.0 opened in
      let busy : begun_asks loads handler task ≡ asks loads handler task.request.frames =
        rw e refl in
      record {
        bound = omega (
          arith,
          k.bound,
          p.fewer,
          ap length d.tasks,
          d.same_max,
          ap length r.same_tasks,
          r.same_max,
        );
        once = λ id. omega (
          arith,
          k.once id,
          p.weighs (is_from id),
          ap (weight (is_from id)) d.tasks,
          ap (weight (is_from id)) r.same_tasks,
        );
        dropped = omega (arith, k.dropped, d.dropped, r.dropped);
        failed = omega (arith, k.failed, d.failed, r.failed);
        counted = omega (
          arith,
          k.counted,
          d.counted,
          busy,
          p.weighs (begun_asks loads handler),
          ap (weight (begun_asks loads handler)) d.tasks,
          r.counted,
          ap (weight (begun_asks loads handler)) r.same_tasks,
        );
        closed = inl (r.same_socket ∙ opened);
        unskipped = omega (arith, k.unskipped, r.unskipped);
      }

  begin_picked-IsAnswered :
      (o : Option (Task × List Task)) (h : History Answer)
      → Picked h.broker.router_tasks o
      → IsAnswered loads handler h
      → IsAnswered loads handler (begin_picked loads handler o h)
  unfolding begin_picked
  begin_picked-IsAnswered none h p k = k
  begin_picked-IsAnswered (some (task, others)) h p k =
      begin_one-IsAnswered task.begun task others h refl p k

  finish_picked-IsAnswered :
      (encodes sends : Bool) (o : Option (Task × List Task)) (h : History Answer)
      → Picked h.broker.router_tasks o
      → IsAnswered loads handler h
      → IsAnswered loads handler (finish_picked loads handler encodes sends o h)
  unfolding finish_picked
  finish_picked-IsAnswered encodes sends none h p k = k
  finish_picked-IsAnswered encodes sends (some (task, others)) h p k =
      finish_one-IsAnswered task.begun encodes sends task others h refl p k

  weight-append :
      (w : Task → ℕ) (tasks : List Task) (t : Task)
      → weight w (tasks ++ t ∷ []) ≡ weight w tasks + w t
  weight-append w [] t = omega arith
  weight-append w (s ∷ tasks) t = omega (arith, weight-append w tasks t)

  -- the ways of `run_once`
  run_once-raises : (i : Option Request) (b : Broker) → b.socket ≡ false → run_once i b ≡ (b, none)
  unfolding run_once
  run_once-raises i b shut = rw (shut, run_once) refl

  run_once-sheds :
      (i : Option Request) (b : Broker)
      → b.socket ≡ true
      → leb b.max_inflight (length b.router_tasks) ≡ true
      → run_once i b ≡ (record b { shed_total = b.shed_total + 1 }, some false)
  unfolding run_once
  run_once-sheds i b opened full = rw (opened, run_once) (rw (full, run_once) refl)

  run_once-room :
      (i : Option Request) (b : Broker)
      → b.socket ≡ true
      → leb b.max_inflight (length b.router_tasks) ≡ false
      → run_once i b ≡ (elim i as (λ _. Broker × Option Bool) [
        | none ↦ (b, some false)
        | some request ↦ (
          record b {
            router_tasks = b.router_tasks ++ record { request = request; begun = false } ∷ [];
          },
          some true,
        )
      ])
  unfolding run_once
  run_once-room i b opened room = rw (opened, run_once) (rw (room, run_once) refl)

  runs-IsAnswered :
      (incoming : Option Request) (h : History Answer)
      → IsAnswered loads handler h
      → IsAnswered loads handler (step loads handler (runs incoming) h)
  unfolding step
  runs-IsAnswered incoming h k = unless h.stopping
    where
      quiet :
          (shed : ℕ)
          → IsAnswered loads handler (record h {
            broker = record h.broker { shed_total = shed };
            accepted = h.accepted ++ [];
          })
      quiet shed = record {
        bound = k.bound;
        once = λ id. omega (arith, k.once id, times-append id h.accepted []);
        dropped = k.dropped;
        failed = k.failed;
        counted = k.counted;
        closed = k.closed;
        unskipped = k.unskipped;
      }

      came : Option Request → Broker × Option Bool
      came i = elim i as (λ _. Broker × Option Bool) [
        | none ↦ (h.broker, some false)
        | some request ↦ (
          record h.broker {
            router_tasks =
                h.broker.router_tasks ++ record { request = request; begun = false } ∷ [];
          },
          some true,
        )
      ]

      arrive :
          (i : Option Request)
          → h.broker.socket ≡ true
          → leb h.broker.max_inflight (length h.broker.router_tasks) ≡ false
          → IsAnswered loads handler
              (record h { broker = (came i).0; accepted = h.accepted ++ taken (came i).1 i })
      arrive none opened room = quiet h.broker.shed_total
      arrive (some request) opened room =
          let task : Task = record { request = request; begun = false } in
          record {
            bound = ground (arith, room, length-append h.broker.router_tasks (task ∷ []));
            once = λ id. omega (
              arith,
              k.once id,
              times-append id h.accepted (request.identity ∷ []),
              weight-append (is_from id) h.broker.router_tasks task,
            );
            dropped = k.dropped;
            failed = k.failed;
            counted = omega (
              arith,
              k.counted,
              weight-append (begun_asks loads handler) h.broker.router_tasks task,
            );
            closed = inl opened;
            unskipped = k.unskipped;
          }

      served : IsAnswered loads handler (record h {
        broker = (run_once incoming h.broker).0;
        accepted = h.accepted ++ taken (run_once incoming h.broker).1 incoming;
      })
      served = elim (Bool-cases h.broker.socket) [
        | inr shut ↦ rw (run_once-raises incoming h.broker shut) (quiet h.broker.shed_total)
        | inl opened ↦
            elim (Bool-cases (leb h.broker.max_inflight (length h.broker.router_tasks))) [
              | inl full ↦
                  rw (run_once-sheds incoming h.broker opened full)
                    (quiet (h.broker.shed_total + 1))
              | inr room ↦
                  rw (run_once-room incoming h.broker opened room) (arrive incoming opened room)
            ]
      ]

      unless :
          (ending : Bool)
          → IsAnswered loads handler (
              if ending then h else record h {
                broker = (run_once incoming h.broker).0;
                accepted = h.accepted ++ taken (run_once incoming h.broker).1 incoming;
              })
      unless true = k
      unless false = served

  stops-IsAnswered :
      (h : History Answer)
      → IsAnswered loads handler h
      → IsAnswered loads handler (step loads handler stops h)
  unfolding step stop
  stops-IsAnswered h k = left h.broker.router_tasks refl
    where
      left :
          (tasks : List Task)
          → h.broker.router_tasks ≡ tasks
          → IsAnswered loads handler (record h {
            broker = elim tasks as (λ _. Broker) [
              | [] ↦ record h.broker { socket = false }
              | task ∷ tasks' ↦ h.broker
            ];
            stopping = true;
          })
      left [] idle = record {
        bound = k.bound;
        once = k.once;
        dropped = k.dropped;
        failed = k.failed;
        counted = k.counted;
        closed = inr idle;
        unskipped = k.unskipped;
      }
      left (task ∷ tasks) busy = record {
        bound = k.bound;
        once = k.once;
        dropped = k.dropped;
        failed = k.failed;
        counted = k.counted;
        closed = k.closed;
        unskipped = k.unskipped;
      }

  step-IsAnswered :
      (x : Event) (h : History Answer)
      → IsAnswered loads handler h
      → IsAnswered loads handler (step loads handler x h)
  unfolding step
  step-IsAnswered (runs incoming) h k = runs-IsAnswered incoming h k
  step-IsAnswered (begins n) h k =
      begin_picked-IsAnswered (pick n h.broker.router_tasks) h (pick-Picked n h.broker.router_tasks)
        k
  step-IsAnswered (finishes n encodes sends) h k =
      finish_picked-IsAnswered encodes sends (pick n h.broker.router_tasks) h
        (pick-Picked n h.broker.router_tasks) k
  step-IsAnswered stops h k = stops-IsAnswered h k

  run_from-IsAnswered :
      (events : List Event) (h : History Answer)
      → IsAnswered loads handler h
      → IsAnswered loads handler (run loads handler events h)
  unfolding run
  run_from-IsAnswered [] h k = k
  run_from-IsAnswered (x ∷ events) h k =
      run_from-IsAnswered events (step loads handler x h) (step-IsAnswered x h k)

  -- From a started broker, after any calls of `run_once`, dispatches and ends of tasks and waits of
  -- `stop`, in any order, with no call of `run_once` once `stop` is called, there are at most `max_inflight` tasks. Every request that was taken off
  -- the socket has ended once or is still with its task: for each identity, the accepted requests
  -- are the ended ones and those of the tasks. No reply meets a broker without a socket, since
  -- `stop` closes it when no task is left. The counters are right: the dropped replies are those
  -- whose send failed, the errors are the replies for a time-out or an internal error, and the
  -- requests are those with a payload that decodes that have ended or begun to dispatch.
  pub run-IsAnswered :
      (timeout : Option ℕ) (max_inflight : ℕ) (events : List Event)
      → IsAnswered loads handler (run loads handler events (start timeout max_inflight))
  unfolding init Source.start
  run-IsAnswered timeout max_inflight events =
      run_from-IsAnswered events (start timeout max_inflight) (record {
        bound = omega arith;
        once = λ id. omega arith;
        dropped = refl;
        failed = refl;
        counted = refl;
        closed = inl refl;
        unskipped = refl;
      })
