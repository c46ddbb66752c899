-- ===== src/Tests/Database.antt =====
-- A pool of two readers on a disk that fails once.
use sqtseries.Prelude.{◌≡◌, refl, true, false, none, List, [], ◌∷◌, nat_eq}
use sqtseries.Prelude.Pick.{pick}
use sqtseries.Database.{
  started, dead, Attempt, fresh, connect, checkout, checkout_reader, disconnect, checkin_reader,
  begin, begin_again, transact, get_writer, quarantine_writer, dispose, drain_pool,
}
use sqtseries.Database.Handles.{IsTidy}
use sqtseries.Database.History.{
  Call, connects, disconnects, begins, disposes, start, run, step, run-IsTidy, run-closed,
}
use sqtseries.Database.Writer.{can_commit, Agrees, begin_exact}

abbrev works : Attempt
works = record { opens = true; first = started; reopens = true; second = started; body = true }

abbrev fails : Attempt
fails = record works { body = false }

abbrev dies : Attempt
dies = record works { first = dead }

abbrev calls : List Call
calls =
    connects true
    ∷ connects false
    ∷ connects true
    ∷ begins fails
    ∷ begins dies
    ∷ disconnects 1 true
    ∷ disposes
    ∷ disconnects 0 true
    ∷ []

-- The open that fails takes a slot along: of two slots one is left when all is checked in.
slot_lost : (run calls (start 2)).database.reader_slots ≡ 1
unfolding run step connect checkout checkout_reader disconnect checkin_reader begin begin_again
    transact get_writer quarantine_writer dispose drain_pool pick
slot_lost = refl

all_returned :
    ((run calls (start 2)).database.disposed ≡ true)
    × ((run calls (start 2)).database.out ≡ [])
    × ((run calls (start 2)).database.writer_conn ≡ none)
unfolding run step connect checkout checkout_reader disconnect checkin_reader begin begin_again
    transact get_writer quarantine_writer dispose drain_pool pick
all_returned = (refl, refl, refl)

run-IsTidy_example : IsTidy 2 (run calls (start 2)).lost (run calls (start 2)).database
run-IsTidy_example = run-IsTidy 2 calls

run-closed_example : (run calls (start 2)).database.handles ≡ []
run-closed_example = run-closed 2 calls all_returned.0 all_returned.1 all_returned.2

begin_exact_example : Agrees (can_commit dies (fresh 2)) (begin dies (fresh 2))
begin_exact_example = begin_exact dies (fresh 2)
