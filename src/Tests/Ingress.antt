-- ===== src/Tests/Ingress.antt =====
-- One credit, frames that are numbers, and odd numbers invalid.
use sqtseries.Prelude.{ℕ, ◌≡◌, refl, ◌%◌, Option, none, some, List, [], ◌∷◌, ◌≤◌}
use sqtseries.Prelude.{arith, ◌==◌, nat_eq, if◌then◌else◌}
use sqtseries.Ingress.{
  got, again, init, parse, receive, enqueue, drain_many, cancel, get_item, get_batch, put_exit,
  Event, drain, cancels, takes, exits, step, run, start,
}
use sqtseries.Ingress.Credits.{IsBalanced, run-IsBalanced}
use sqtseries.Ingress.Inside.{inside}
use sqtseries.Ingress.Order.{IsInOrder, run-IsInOrder}
use sqtseries.Ingress.Account.{IsAccounted, run-IsAccounted}
use sqtseries.Ingress.Flush.{rounds, work, rounds-dispatched}

abbrev even : ℕ → Option ℕ
even n = if n % 2 == 0 then some n else none

abbrev busy : List (Event ℕ)
busy = drain 8 (got 2 ∷ got 3 ∷ got 4 ∷ again ∷ []) ∷ takes ∷ drain 8 (got 6 ∷ []) ∷ []

abbrev stopped : List (Event ℕ)
stopped = drain 8 (got 2 ∷ []) ∷ drain 8 (got 4 ∷ got 6 ∷ []) ∷ cancels ∷ exits ∷ []

busy_waits :
    ((run even busy (start 1)).ingress.waiting ≡ some (6 ∷ []))
    × ((run even busy (start 1)).accepted ≡ 2 ∷ 4 ∷ 6 ∷ [])
    × ((run even busy (start 1)).ingress.invalid_count ≡ 1)
unfolding run step drain_many receive parse enqueue start init get_batch get_item
busy_waits = (refl, refl, refl)

-- Both rows of the second drain are counted as received; neither is queued.
cancelled_drain_loses_its_rows :
    ((run even stopped (start 1)).lost ≡ 4 ∷ 6 ∷ [])
    × ((run even stopped (start 1)).ingress.recv_count ≡ 3)
    × (inside (run even stopped (start 1)).ingress ≡ 2 ∷ [])
unfolding run step drain_many receive parse enqueue start init cancel put_exit
cancelled_drain_loses_its_rows = (refl, refl, refl)

enough_rounds : work (run even busy (start 1)).ingress ≤ 4
unfolding run step drain_many receive parse enqueue start init get_batch get_item
enough_rounds = omega arith

run-IsBalanced_example : IsBalanced 1 (run even busy (start 1)).ingress
run-IsBalanced_example = run-IsBalanced even 1 busy

run-IsInOrder_example : IsInOrder (run even busy (start 1))
run-IsInOrder_example = run-IsInOrder even 1 busy (refl, (refl, (refl, tt)))

run-IsAccounted_example : IsAccounted (run even stopped (start 1))
run-IsAccounted_example = run-IsAccounted even 1 stopped

rounds-dispatched_example :
    ((run even (rounds 4) (run even busy (start 1))).dispatched
      ≡ (run even busy (start 1)).accepted)
    × ((run even (rounds 4) (run even busy (start 1))).ingress.persisted
        ≡ (run even (rounds 4) (run even busy (start 1))).ingress.enqueued)
rounds-dispatched_example =
    rounds-dispatched even 1 4 busy (omega arith) (refl, (refl, (refl, tt)))
      (refl, (refl, (refl, tt))) enough_rounds
