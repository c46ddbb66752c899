-- ===== src/Database/History.antt =====
-- engine/db.py: histories of calls of a `Database`.
use sqtseries.Prelude.{
  ℕ, ◌+◌, ◌≡◌, refl, ap, Bool, true, Option, none, some, List, [], ◌∷◌, arith, ltb, nat_eq,
  string_eq, length,
}
use sqtseries.Prelude.Pick.{pick, weight, Picked, pick-Picked}
use sqtseries.Database.{
  Checkout, Database, fresh, connect, disconnect, Attempt, begin, checkpoint, dispose,
}
use sqtseries.Database.Handles.{
  copies, is_handle, is_writer, lost_slot, IsTidy, connect-IsTidy, disconnect-IsTidy, begin-IsTidy,
  checkpoint-IsTidy, dispose-IsTidy,
}

-- `disconnects` is the end of a `with` block on the checkout at a place.
pub data Call : Type 0 where
  connects : Bool → Call
  disconnects : ℕ → Bool → Call
  begins : Attempt → Call
  checkpoints : Bool → Bool → Call
  disposes : Call

-- the database with the number of checkouts that had a slot and whose open failed
pub record History : Type 0 where
  pub database : Database
  pub lost : ℕ

unfoldable pub step : Call → History → History
unfolding connect disconnect begin checkpoint dispose pick
step (connects opens) h =
    let (s, ok) = connect opens h.database in
    record { database = s; lost = h.lost + lost_slot (ltb 0 h.database.reader_slots) ok }
step (disconnects n clean) h = elim (pick n h.database.out) [
  | none ↦ h
  | some (c, others) ↦ record h {
    database = disconnect clean c (record h.database { out = others });
  }
]
step (begins a) h = record h { database = (begin a h.database).0 }
step (checkpoints opens works) h = record h { database = (checkpoint opens works h.database).0 }
step disposes h = record h { database = dispose h.database }

unfoldable pub run : List Call → History → History
unfolding step
run [] h = h
run (c ∷ calls) h = run calls (step c h)

abbrev pub start : ℕ → History
start size = record { database = fresh size; lost = 0 }

step-IsTidy :
    (size : ℕ) (c : Call) (h : History)
    → IsTidy size h.lost h.database
    → IsTidy size (step c h).lost (step c h).database
unfolding step
step-IsTidy size (connects opens) h k = connect-IsTidy size h.lost opens h.database k
step-IsTidy size (disconnects n clean) h k =
    cases (pick n h.database.out) (pick-Picked n h.database.out)
  where
    cases :
        (o : Option (Checkout × List Checkout))
        → Picked h.database.out o
        → let h' = elim o as (λ _. History) [
          | none ↦ h
          | some (c, others) ↦ record h {
            database = disconnect clean c (record h.database { out = others });
          }
        ] in
          IsTidy size h'.lost h'.database
    cases none p = k
    cases (some (c, others)) p = disconnect-IsTidy size h.lost clean c others h.database k p
step-IsTidy size (begins a) h k = begin-IsTidy size h.lost a h.database k
step-IsTidy size (checkpoints opens works) h k =
    checkpoint-IsTidy size h.lost opens works h.database k
step-IsTidy size disposes h k = dispose-IsTidy size h.lost h.database k

run_from-IsTidy :
    (size : ℕ) (calls : List Call) (h : History)
    → IsTidy size h.lost h.database
    → IsTidy size (run calls h).lost (run calls h).database
unfolding run
run_from-IsTidy size [] h k = k
run_from-IsTidy size (c ∷ calls) h k =
    run_from-IsTidy size calls (step c h) (step-IsTidy size c h k)

-- After any calls, failures of every kind included: the free slots, the checkouts that have one and
-- those that were lost to a failed open add up to the size of the pool, and the pooled handles fit
-- beside the last two; a disposed database pools none. Every open handle is in the pool, checked
-- out, or the writer, and in one of these places once.
pub run-IsTidy :
    (size : ℕ) (calls : List Call)
    → IsTidy size (run calls (start size)).lost (run calls (start size)).database
run-IsTidy size calls = run_from-IsTidy size calls (start size) (record {
  same_size = refl;
  slots = omega arith;
  pool = omega arith;
  drained = omega arith;
  all_known = λ x. omega arith;
  single = λ x. omega arith;
  old = λ x later. omega arith;
})

nothing_open : (l : List ℕ) → ((h : ℕ) → copies h l ≡ 0) → l ≡ []
nothing_open [] none_there = refl
nothing_open (x ∷ l) none_there = absurd (ground (arith, none_there x))

-- Once a database is disposed, every reader is checked in and there is no writer, no handle is
-- open, whatever the calls before and after `dispose` have met.
pub run-closed :
    (size : ℕ) (calls : List Call)
    → (run calls (start size)).database.disposed ≡ true
    → (run calls (start size)).database.out ≡ []
    → (run calls (start size)).database.writer_conn ≡ none
    → (run calls (start size)).database.handles ≡ []
run-closed size calls off idle no_writer =
    let s = (run calls (start size)).database in
    let k = run-IsTidy size calls in
    let empty_pool : length s.reader_pool ≡ 0 = ground (arith, k.drained, off) in
    nothing_open s.handles (λ h. omega (
      arith,
      k.all_known h,
      pool_empty h s.reader_pool empty_pool,
      ap (weight (is_handle h)) idle,
      ap (is_writer h) no_writer,
    ))
  where
    pool_empty : (h : ℕ) (pool : List ℕ) → length pool ≡ 0 → copies h pool ≡ 0
    pool_empty h [] e = refl
    pool_empty h (x ∷ pool) e = absurd (omega arith)
