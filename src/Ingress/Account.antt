-- ===== src/Ingress/Account.antt =====
-- messaging/ingress.py: the count of the received rows against what became of them.
use sqtseries.Ingress.{cancel}
use sqtseries.Prelude.{arith, length-append, length}
use sqtseries.Prelude.{length-append}
use sqtseries.Prelude.{
  ℕ, ◌+◌, ◌≡◌, refl, ap, ◌∙◌, Option, none, some, List, [], ◌∷◌, ◌++◌, nat_eq, string_eq, length,
}
use mathlib.Core.List.{append-nil}
use sqtseries.Ingress.{
  Recv, Ingress, init, receive, enqueue, drain_many, resume, get_item, get_batch, finish, put_exit,
  History, Event, drain, resumes, cancels, takes, finishes, exits, step, run, start,
}
use sqtseries.Ingress.Credits.{receive-counts}
use sqtseries.Ingress.Inside.{
  rows_of, rows_on, inside, resume-inside, get_batch-inside, finish-inside, put_exit-inside,
  drain_many-inside,
}

module _ {Row : Type 0} where
  -- Every row that was counted on receipt is with the sink, on its way, or lost.
  abbrev pub IsAccounted : History Row → Type 0
  IsAccounted h =
      h.ingress.recv_count ≡ length h.dispatched + length (inside h.ingress) + length h.lost

  cancel-inside :
      (s : Ingress Row) → length (inside s) ≡ length (inside (cancel s).0) + length (cancel s).1
  unfolding cancel
  cancel-inside s = ground (
    arith,
    length-append (rows_of s.in_sink) (rows_on s.pending ++ rows_of s.waiting),
    length-append (rows_on s.pending) (rows_of s.waiting),
    length-append (rows_of s.in_sink) (rows_on s.pending ++ []),
    append-nil (rows_on s.pending),
  )

  kept_received :
      (s : Ingress Row)
      → ((resume s).recv_count ≡ s.recv_count)
        × ((cancel s).0.recv_count ≡ s.recv_count)
        × ((finish s).0.recv_count ≡ s.recv_count)
        × ((put_exit s).recv_count ≡ s.recv_count)
  unfolding resume cancel finish put_exit
  kept_received s = (ground arith, ground arith, ground arith, ground arith)

  get_item-received :
      (pending : List (Option (List Row))) (s : Ingress Row)
      → (get_item pending s).recv_count ≡ s.recv_count
  unfolding get_item
  get_item-received [] s = refl
  get_item-received (none ∷ rest) s = refl
  get_item-received (some rows ∷ rest) s = refl

  get_batch-received : (s : Ingress Row) → (get_batch s).recv_count ≡ s.recv_count
  unfolding get_batch
  get_batch-received s = ground (arith, get_item-received s.pending s)

  module _ {Frame : Type 0} (validate : Frame → Option Row) where
    drain_many-received :
        (m : ℕ) (frames : List (Recv Frame)) (s : Ingress Row)
        → (drain_many validate m frames s).0.recv_count
          ≡ s.recv_count + length (drain_many validate m frames s).1
    unfolding drain_many enqueue
    drain_many-received m frames s =
        let (e, i, same) = receive-counts validate m frames s in
        batch (receive validate m frames s).1 ∙ ap (λ x. x.recv_count) same
      where
        batch :
            (rows : List Row)
            → (elim rows as (λ _. Ingress Row) [
              | [] ↦ (receive validate m frames s).0
              | row ∷ rest ↦ enqueue (row ∷ rest) (receive validate m frames s).0
            ]).recv_count
              ≡ (receive validate m frames s).0.recv_count
        batch [] = refl
        batch (row ∷ rest) = ground arith

    step-IsAccounted :
        (x : Event Frame) (h : History Row) → IsAccounted h → IsAccounted (step validate x h)
    unfolding step
    step-IsAccounted (drain m frames) h c = when h.ingress.waiting refl
      where
        when :
            (o : Option (List Row))
            → h.ingress.waiting ≡ o
            → IsAccounted (elim o as (λ _. History Row) [
              | some rows ↦ h
              | none ↦ record h {
                ingress = (drain_many validate m frames h.ingress).0;
                accepted = h.accepted ++ (drain_many validate m frames h.ingress).1;
              }
            ])
        when (some rows) e = c
        when none e = omega (
          arith,
          c,
          drain_many-received m frames h.ingress,
          ap length (drain_many-inside validate m frames h.ingress e),
          length-append (inside h.ingress) (drain_many validate m frames h.ingress).1,
        )
    step-IsAccounted resumes h c =
        omega (arith, c, (kept_received h.ingress).0, ap length (resume-inside h.ingress))
    step-IsAccounted cancels h c = omega (
      arith,
      c,
      (kept_received h.ingress).1,
      cancel-inside h.ingress,
      length-append h.lost (cancel h.ingress).1,
    )
    step-IsAccounted takes h c =
        omega (arith, c, get_batch-received h.ingress, ap length (get_batch-inside h.ingress))
    step-IsAccounted finishes h c = omega (
      arith,
      c,
      (kept_received h.ingress).2,
      ap length (finish-inside h.ingress),
      length-append (finish h.ingress).1 (inside (finish h.ingress).0),
      length-append h.dispatched (finish h.ingress).1,
    )
    step-IsAccounted exits h c =
        omega (arith, c, (kept_received h.ingress).3, ap length (put_exit-inside h.ingress))

    run_from-IsAccounted :
        (events : List (Event Frame)) (h : History Row)
        → IsAccounted h
        → IsAccounted (run validate events h)
    unfolding run
    run_from-IsAccounted [] h c = c
    run_from-IsAccounted (x ∷ events) h c =
        run_from-IsAccounted events (step validate x h) (step-IsAccounted x h c)

    -- After any history, cancelled drains included, the count of received rows is the number of
    -- rows that the sink was given, that are on their way, and that cancelled drains have taken
    -- along.
    pub run-IsAccounted :
        (n : ℕ) (events : List (Event Frame)) → IsAccounted (run validate events (start n))
    unfolding start init
    run-IsAccounted n events = run_from-IsAccounted events (start n) refl
