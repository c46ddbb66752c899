-- ===== src/Ingress/Flush.antt =====
-- messaging/ingress.py: the persister at work on what is left, as `flush` waits for it.
use sqtseries.Ingress.Credits.{IsBalanced}
use mathlib.Core.List.{append-nil}
use sqtseries.Ingress.{init, start, run, step, History, Event, takes, resumes, finishes}
use sqtseries.Ingress.Inside.{rows_of, rows_on, inside}
use sqtseries.Ingress.Order.{run-IsInOrder, run_from-IsInOrder, is_calm}
use sqtseries.Ingress.Credits.{
  finish-IsBalanced, resume-IsBalanced, get_batch-IsBalanced, run-IsBalanced, run_from-IsBalanced,
}
use mathlib.Core.Path.{subst}
use sqtseries.Prelude.{
  ℕ, zero, suc, ◌+◌, ◌-◌, ◌*◌, ◌≤◌, min, ◌≡◌, refl, sym, ap, ◌∙◌, inl, inr, true, Option, none,
  some, List, [], ◌∷◌, ◌++◌, arith, ◌==◌, if◌then◌else◌, Option-cases, nat_eq, string_eq, length,
  length-append, All,
}
use sqtseries.Ingress.{
  Ingress, resume, get_item, get_batch, finish, Event, resumes, takes, finishes,
}
use sqtseries.Ingress.Credits.{held, batches, is_waiting}
use sqtseries.Ingress.Open.{
  is_open, IsOpen, resume-IsOpen, get_batch-IsOpen, finish-IsOpen, run-IsOpen,
}

-- A schedule of events, rounds of the event loop without new frames: the batch in the sink is done, a suspended drain
-- goes on if there is a credit, and the persister takes the next batch
unfoldable pub rounds : {Frame : Type 0} → ℕ → List (Event Frame)
rounds zero = []
rounds (suc k) = finishes ∷ resumes ∷ takes ∷ rounds k

module _ {Row : Type 0} where
  -- what is left to do: every batch is put, taken and finished
  abbrev pub work : Ingress Row → ℕ
  work s = 3 * held s.waiting + 2 * length s.pending + held s.in_sink

  finish-work :
      (s : Ingress Row)
      → (work (finish s).0 + held s.in_sink ≡ work s) × ((finish s).0.in_sink ≡ none)
  unfolding finish
  finish-work s = (ground arith, ground arith)

  resume-work :
      (s : Ingress Row)
      → (work (resume s) + (if s.credits == 0 then 0 else held s.waiting) ≡ work s)
        × ((resume s).in_sink ≡ s.in_sink)
        × (length s.pending ≤ length (resume s).pending)
  unfolding resume
  resume-work s = elim (Option-cases s.waiting) [
    | inl idle ↦ rw (idle, resume) (ground arith, refl, omega arith)
    | inr (rows, waits) ↦ (
      ground (arith, waits, length-append s.pending (some rows ∷ [])),
      ground arith,
      ground (arith, waits, length-append s.pending (some rows ∷ [])),
    )
  ]

  get_item-work :
      (pending : List (Option (List Row))) (s : Ingress Row)
      → s.pending ≡ pending
      → s.in_sink ≡ none
      → IsOpen s
      → work (get_item pending s) + min 1 (length pending) ≡ work s
  unfolding get_item
  get_item-work [] s e idle o = omega arith
  get_item-work (none ∷ rest) s e idle o =
      absurd (ground (arith, subst (All (λ x. is_waiting x ≡ true)) e o.real))
  get_item-work (some rows ∷ rest) s e idle o = ground (arith, ap length e, ap held idle)

  get_batch-work :
      (s : Ingress Row)
      → s.in_sink ≡ none
      → IsOpen s
      → work (get_batch s) + min 1 (length s.pending) ≡ work s
  unfolding get_batch
  get_batch-work s idle o = ground (arith, get_item-work s.pending s refl idle o)

  finish-rest :
      (s : Ingress Row)
      → ((finish s).0.pending ≡ s.pending)
        × ((finish s).0.waiting ≡ s.waiting)
        × ((finish s).0.credits ≡ s.credits + held s.in_sink)
  unfolding finish
  finish-rest s = (ground arith, ground arith, ground arith)

  batches_le : (pending : List (Option (List Row))) → batches pending ≤ length pending
  batches_le [] = omega arith
  batches_le (none ∷ pending) = omega (arith, batches_le pending)
  batches_le (some rows ∷ pending) = omega (arith, batches_le pending)

  -- A round does some of the work while there is any.
  round-work :
      (s : Ingress Row)
      → IsOpen s
      → 1 ≤ s.credits + batches s.pending + held s.in_sink
      → work (get_batch (resume (finish s).0)) ≤ work s - 1
  round-work s o room =
      let (done, idle) = finish-work s in
      let (resumed, same, grown) = resume-work (finish s).0 in
      let taken =
        get_batch-work (resume (finish s).0) (same ∙ idle)
          (resume-IsOpen (finish s).0 (finish-IsOpen s o)) in
      let (queue, drain_waits, credit) = finish-rest s in
      ground (
        arith,
        done,
        resumed,
        grown,
        taken,
        credit,
        ap length queue,
        ap held drain_waits,
        batches_le s.pending,
        room,
      )

  inside_done : (s : Ingress Row) → work s ≡ 0 → inside s ≡ []
  inside_done s w = parts s.in_sink s.pending s.waiting w
    where
      parts :
          (in_sink : Option (List Row)) (pending : List (Option (List Row)))
          (waiting : Option (List Row))
          → 3 * held waiting + 2 * length pending + held in_sink ≡ 0
          → rows_of in_sink ++ (rows_on pending ++ rows_of waiting) ≡ []
      parts none [] none w = refl
      parts none [] (some rows) w = absurd (omega arith)
      parts none (x ∷ pending) waiting w = absurd (omega arith)
      parts (some rows) pending waiting w = absurd (omega arith)

  counted_done : (n : ℕ) (s : Ingress Row) → IsBalanced n s → work s ≡ 0 → s.persisted ≡ s.enqueued
  counted_done n s b w = omega (arith, b.counted, batches_le s.pending)

  module _ {Frame : Type 0} (validate : Frame → Option Row) where
    rounds-work :
        (n k : ℕ) (h : History Row)
        → 1 ≤ n
        → IsOpen h.ingress
        → IsBalanced n h.ingress
        → work (run validate (rounds k) h).ingress ≤ work h.ingress - k
    unfolding run rounds step
    rounds-work n zero h some_credit o b = omega arith
    rounds-work n (suc k) h some_credit o b =
        let done = finish-IsOpen h.ingress o in
        let resumed = resume-IsOpen (finish h.ingress).0 done in
        let b' = resume-IsBalanced n (finish h.ingress).0 (finish-IsBalanced n h.ingress b) in
        let h' = step validate takes (step validate resumes (step validate finishes h)) in
        let later =
          rounds-work n k h' some_credit (get_batch-IsOpen (resume (finish h.ingress).0) resumed)
            (get_batch-IsBalanced n (resume (finish h.ingress).0) b') in
        omega (arith, later, round-work h.ingress o (omega (arith, b.bound)))

    rounds-accepted : (k : ℕ) (h : History Row) → (run validate (rounds k) h).accepted ≡ h.accepted
    unfolding run rounds step
    rounds-accepted zero h = refl
    rounds-accepted (suc k) h =
        rounds-accepted k (step validate takes (step validate resumes (step validate finishes h)))

    rounds_calm : (k : ℕ) → All (λ (x : Event Frame). is_calm x ≡ true) (rounds k)
    unfolding rounds
    rounds_calm zero = tt
    rounds_calm (suc k) = (refl, (refl, (refl, rounds_calm k)))

    -- With room for a batch, after any history without a cancelled drain and before the exit is
    -- asked for: as many rounds as the work that is left asks for, or more, and every accepted row
    -- has been given to the sink, in order, and the two counters that `flush` compares are equal.
    pub rounds-dispatched :
        (n k : ℕ) (events : List (Event Frame))
        → 1 ≤ n
        → All (λ x. is_calm x ≡ true) events
        → All (λ x. is_open x ≡ true) events
        → work (run validate events (start n)).ingress ≤ k
        → ((run validate (rounds k) (run validate events (start n))).dispatched
            ≡ (run validate events (start n)).accepted)
          × ((run validate (rounds k) (run validate events (start n))).ingress.persisted
              ≡ (run validate (rounds k) (run validate events (start n))).ingress.enqueued)
    rounds-dispatched n k events some_credit calm open_events enough =
        let h = run validate events (start n) in
        let h' = run validate (rounds k) h in
        let o : IsOpen h.ingress =
          run-IsOpen validate events (start n) open_events
            (unfold start init in record { running = refl; real = tt }) in
        let b = run-IsBalanced validate n events in
        let left = rounds-work n k h some_credit o b in
        let nothing : work h'.ingress ≡ 0 = omega (arith, left, enough) in
        let ordered =
          run_from-IsInOrder validate (rounds k) h (rounds_calm k)
            (run-IsInOrder validate n events calm) in
        (
          sym (append-nil h'.dispatched)
              ∙ ap (◌++◌ h'.dispatched) (sym (inside_done h'.ingress nothing))
              ∙ sym ordered
              ∙ rounds-accepted k h,
          counted_done n h'.ingress (run_from-IsBalanced validate n (rounds k) h b) nothing,
        )
