-- ===== src/Ingress/Credits.antt =====
-- messaging/ingress.py: the credits of the semaphore and the counters over any history of events.
use native.Mathlib.Nat.{add-zero}
use sqtseries.Prelude.{
  ℕ, zero, suc, ◌+◌, ◌≡◌, refl, ap, ◌∙◌, inl, inr, Bool, true, false, Option, none, some, List, [],
  ◌∷◌, ◌++◌, arith, ◌==◌, if◌then◌else◌, Bool-cases, Option-cases, nat_eq, string_eq, length,
}
use sqtseries.Ingress.{
  Recv, got, again, failed, Ingress, init, parse, receive, put, enqueue, drain_many, resume, cancel,
  get_item, get_batch, finish, put_exit, History, Event, drain, resumes, cancels, takes, finishes,
  exits, step, run, start,
}

more : (a b : ℕ) → a + 1 + b ≡ a + suc b
more a b = omega arith

module _ {Row : Type 0} where
  abbrev pub held : Option (List Row) → ℕ
  held none = 0
  held (some rows) = 1

  -- the batches on the queue, without sentinels
  abbrev pub batches : List (Option (List Row)) → ℕ
  batches [] = 0
  batches (x ∷ pending) = held x + batches pending

  abbrev pub is_waiting : Option (List Row) → Bool
  is_waiting none = false
  is_waiting (some rows) = true

  pub batches-append :
      (pending : List (Option (List Row))) (x : Option (List Row))
      → batches (pending ++ x ∷ []) ≡ batches pending + held x
  batches-append [] x = omega arith
  batches-append (y ∷ pending) x = omega (arith, batches-append pending x)

  -- Every batch on the queue or in the sink has one of the credits.
  pub record IsBalanced (pending_max : ℕ) (s : Ingress Row) : Type 0 where
    pub bound : s.credits + batches s.pending + held s.in_sink ≡ pending_max
    pub counted : s.enqueued ≡ s.persisted + batches s.pending + held s.in_sink
    pub pressure : s.backpressured ≡ is_waiting s.waiting

  put-IsBalanced :
      (n : ℕ) (rows : List Row) (s : Ingress Row)
      → IsBalanced n s
      → (s.credits == 0) ≡ false
      → IsBalanced n (put rows s)
  put-IsBalanced n rows s b some_credit = ground (arith, batches-append s.pending (some rows))

  enqueue-IsBalanced :
      (n : ℕ) (rows : List Row) (s : Ingress Row) → IsBalanced n s → IsBalanced n (enqueue rows s)
  unfolding enqueue
  enqueue-IsBalanced n rows s b = elim (Bool-cases (s.credits == 0)) [
    | inl full ↦ rw full (record { bound = b.bound; counted = b.counted; pressure = refl })
    | inr room ↦ rw room (put-IsBalanced n rows s b room)
  ]

  abbrev pub with_counts : ℕ → ℕ → ℕ → Ingress Row → Ingress Row
  with_counts r e i s = record s { recv_count = r; error_count = e; invalid_count = i }

  module _ {Frame : Type 0} (validate : Frame → Option Row) where
    parse-bad :
        (raw : Frame) (s : Ingress Row)
        → validate raw ≡ none
        → parse validate raw s ≡ (record s { invalid_count = s.invalid_count + 1 }, [])
    unfolding parse
    parse-bad raw s bad = rw (bad, parse) refl

    parse-good :
        (raw : Frame) (row : Row) (s : Ingress Row)
        → validate raw ≡ some row
        → parse validate raw s ≡ (record s { recv_count = s.recv_count + 1 }, row ∷ [])
    unfolding parse
    parse-good raw row s good = rw (good, parse) refl

    -- Receiving changes the counters alone.
    pub receive-counts :
        (n : ℕ) (frames : List (Recv Frame)) (s : Ingress Row)
        → (e : ℕ) × (i : ℕ) × ((receive validate n frames s).0
            ≡ with_counts (s.recv_count + length (receive validate n frames s).1) e i s)
    unfolding receive
    receive-counts zero frames s = (s.error_count, s.invalid_count, rw add-zero refl)
    receive-counts (suc n) [] s = (s.error_count, s.invalid_count, rw add-zero refl)
    receive-counts (suc n) (again ∷ frames) s = (s.error_count, s.invalid_count, rw add-zero refl)
    receive-counts (suc n) (failed ∷ frames) s =
        (s.error_count + 1, s.invalid_count, rw add-zero refl)
    receive-counts (suc n) (got raw ∷ frames) s = elim (Option-cases (validate raw)) [
      | inl bad ↦
          let s' : Ingress Row = record s { invalid_count = s.invalid_count + 1 } in
          let (e, i, same) = receive-counts n frames s' in (e, i, rw (parse-bad raw s bad) same)
      | inr (row, good) ↦
          let s' : Ingress Row = record s { recv_count = s.recv_count + 1 } in
          let (e, i, same) = receive-counts n frames s' in
          let step = more s.recv_count (length (receive validate n frames s').1) in
          (e, i, rw (parse-good raw row s good) (same ∙ ap (λ c. with_counts c e i s) step))
    ]

  pub resume-IsBalanced : (n : ℕ) (s : Ingress Row) → IsBalanced n s → IsBalanced n (resume s)
  unfolding resume
  resume-IsBalanced n s b = elim (Option-cases s.waiting) [
    | inl idle ↦ rw (idle, resume) b
    | inr (rows, waits) ↦ elim (Bool-cases (s.credits == 0)) [
      | inl full ↦ rw (waits, full, resume) b
      | inr room ↦ rw (waits, room, resume) (put-IsBalanced n rows s b room)
    ]
  ]

  cancel-IsBalanced : (n : ℕ) (s : Ingress Row) → IsBalanced n s → IsBalanced n (cancel s).0
  unfolding cancel
  cancel-IsBalanced n s b = ground arith

  get_item-IsBalanced :
      (n : ℕ) (pending : List (Option (List Row))) (s : Ingress Row)
      → s.pending ≡ pending
      → s.in_sink ≡ none
      → IsBalanced n s
      → IsBalanced n (get_item pending s)
  unfolding get_item
  get_item-IsBalanced n [] s e idle b = b
  get_item-IsBalanced n (none ∷ rest) s e idle b = ground (arith, ap batches e)
  get_item-IsBalanced n (some rows ∷ rest) s e idle b = ground (arith, ap batches e, ap held idle)

  pub get_batch-IsBalanced : (n : ℕ) (s : Ingress Row) → IsBalanced n s → IsBalanced n (get_batch s)
  unfolding get_batch
  get_batch-IsBalanced n s b = if_exited s.exited
    where
      when_idle :
          (o : Option (List Row))
          → s.in_sink ≡ o
          → IsBalanced n
              (elim o as (λ _. Ingress Row) [ some rows ↦ s | none ↦ get_item s.pending s ])
      when_idle none idle = get_item-IsBalanced n s.pending s refl idle b
      when_idle (some rows) busy = b

      if_exited :
          (t : Bool)
          → IsBalanced n
              (if t then s else elim s.in_sink [ some rows ↦ s | none ↦ get_item s.pending s ])
      if_exited true = b
      if_exited false = when_idle s.in_sink refl

  pub finish-IsBalanced : (n : ℕ) (s : Ingress Row) → IsBalanced n s → IsBalanced n (finish s).0
  unfolding finish
  finish-IsBalanced n s b = ground arith

  put_exit-IsBalanced : (n : ℕ) (s : Ingress Row) → IsBalanced n s → IsBalanced n (put_exit s)
  unfolding put_exit
  put_exit-IsBalanced n s b = ground (arith, batches-append s.pending none)

  module _ {Frame : Type 0} (validate : Frame → Option Row) where
    drain_many-IsBalanced :
        (n m : ℕ) (frames : List (Recv Frame)) (s : Ingress Row)
        → IsBalanced n s
        → IsBalanced n (drain_many validate m frames s).0
    unfolding drain_many
    drain_many-IsBalanced n m frames s b =
        let (e, i, same) = receive-counts validate m frames s in
        let rows = (receive validate m frames s).1 in
        let read : IsBalanced n (receive validate m frames s).0 =
          rw same (record { bound = b.bound; counted = b.counted; pressure = b.pressure }) in
        batch rows read
      where
        batch :
            (rows : List Row)
            → IsBalanced n (receive validate m frames s).0
            → IsBalanced n (elim rows as (λ _. Ingress Row) [
              | [] ↦ (receive validate m frames s).0
              | row ∷ rest ↦ enqueue (row ∷ rest) (receive validate m frames s).0
            ])
        batch [] read = read
        batch (row ∷ rest) read = enqueue-IsBalanced n (row ∷ rest) _ read

    pub step-IsBalanced :
        (n : ℕ) (x : Event Frame) (h : History Row)
        → IsBalanced n h.ingress
        → IsBalanced n (step validate x h).ingress
    unfolding step
    step-IsBalanced n (drain m frames) h b = elim (Option-cases h.ingress.waiting) [
      | inl free ↦ rw (free, step) (drain_many-IsBalanced n m frames h.ingress b)
      | inr (rows, waits) ↦ rw (waits, step) b
    ]
    step-IsBalanced n resumes h b = resume-IsBalanced n h.ingress b
    step-IsBalanced n cancels h b = cancel-IsBalanced n h.ingress b
    step-IsBalanced n takes h b = get_batch-IsBalanced n h.ingress b
    step-IsBalanced n finishes h b = finish-IsBalanced n h.ingress b
    step-IsBalanced n exits h b = put_exit-IsBalanced n h.ingress b

    pub run_from-IsBalanced :
        (n : ℕ) (events : List (Event Frame)) (h : History Row)
        → IsBalanced n h.ingress
        → IsBalanced n (run validate events h).ingress
    unfolding run
    run_from-IsBalanced n [] h b = b
    run_from-IsBalanced n (x ∷ events) h b =
        run_from-IsBalanced n events (step validate x h) (step-IsBalanced n x h b)

    -- After any history the credits and the batches that are queued or in the sink add up to
    -- `pending_max`, so there are never more batches; the batches put on the queue are those
    -- dispatched and those outstanding; and the flag of backpressure is up exactly while a drain
    -- waits for a credit.
    pub run-IsBalanced :
        (n : ℕ) (events : List (Event Frame)) → IsBalanced n (run validate events (start n)).ingress
    unfolding start init
    run-IsBalanced n events =
        run_from-IsBalanced n events (start n)
          (record { bound = omega arith; counted = omega arith; pressure = refl })
