-- ===== src/Ingress/Open.antt =====
-- messaging/ingress.py: the ingress before `drain_inflight` asks the persister to end.
use sqtseries.Ingress.Credits.{receive-counts}
use sqtseries.Ingress.{
  run, step, receive, drain_many, enqueue, History, Event, Recv, exits, cancels, drain, takes,
  resumes, finishes,
}
use mathlib.Core.Path.{subst}
use sqtseries.Prelude.{
  ℕ, ◌≡◌, refl, inl, inr, Bool, true, false, Option, none, some, List, [], ◌∷◌, arith, ◌==◌,
  if◌then◌else◌, Bool-cases, Option-cases, nat_eq, string_eq, All, All-append,
}
use sqtseries.Ingress.{
  Ingress, put, enqueue, resume, cancel, get_item, get_batch, finish, Event, resumes, takes,
  finishes, exits,
}
use sqtseries.Ingress.Credits.{is_waiting}

-- an event of a service that is not shutting down
abbrev pub is_open : {Frame : Type 0} → Event Frame → Bool
is_open exits = false
is_open _ = true

module _ {Row : Type 0} where
  -- no sentinel is on the queue, and none was taken
  pub record IsOpen (s : Ingress Row) : Type 0 where
    pub running : s.exited ≡ false
    pub real : All (λ x. is_waiting x ≡ true) s.pending

  pub put-IsOpen : (rows : List Row) (s : Ingress Row) → IsOpen s → IsOpen (put rows s)
  put-IsOpen rows s o = record {
    running = o.running;
    real = All-append (λ x. is_waiting x ≡ true) s.pending (some rows ∷ []) o.real (refl, tt);
  }

  pub enqueue-IsOpen : (rows : List Row) (s : Ingress Row) → IsOpen s → IsOpen (enqueue rows s)
  unfolding enqueue
  enqueue-IsOpen rows s o = elim (Bool-cases (s.credits == 0)) [
    | inl full ↦ rw full (record { running = o.running; real = o.real })
    | inr room ↦ rw room (put-IsOpen rows s o)
  ]

  pub resume-IsOpen : (s : Ingress Row) → IsOpen s → IsOpen (resume s)
  unfolding resume
  resume-IsOpen s o = elim (Option-cases s.waiting) [
    | inl idle ↦ rw (idle, resume) o
    | inr (rows, waits) ↦ elim (Bool-cases (s.credits == 0)) [
      | inl full ↦ rw (waits, full, resume) o
      | inr room ↦ rw (waits, room, resume) (put-IsOpen rows s o)
    ]
  ]

  pub get_item-IsOpen :
      (pending : List (Option (List Row))) (s : Ingress Row)
      → s.pending ≡ pending
      → IsOpen s
      → IsOpen (get_item pending s)
  unfolding get_item
  get_item-IsOpen [] s e o = o
  get_item-IsOpen (none ∷ rest) s e o =
      absurd (ground (arith, subst (All (λ x. is_waiting x ≡ true)) e o.real))
  get_item-IsOpen (some rows ∷ rest) s e o = record {
    running = o.running;
    real = (subst (All (λ x. is_waiting x ≡ true)) e o.real).1;
  }

  pub get_batch-IsOpen : (s : Ingress Row) → IsOpen s → IsOpen (get_batch s)
  unfolding get_batch
  get_batch-IsOpen s o = if_exited s.exited
    where
      when_idle :
          (x : Option (List Row))
          → IsOpen (elim x as (λ _. Ingress Row) [ some rows ↦ s | none ↦ get_item s.pending s ])
      when_idle none = get_item-IsOpen s.pending s refl o
      when_idle (some rows) = o

      if_exited :
          (t : Bool)
          → IsOpen (if t then s else elim s.in_sink [ some rows ↦ s | none ↦ get_item s.pending s ])
      if_exited true = o
      if_exited false = when_idle s.in_sink

  pub cancel-IsOpen : (s : Ingress Row) → IsOpen s → IsOpen (cancel s).0
  unfolding cancel
  cancel-IsOpen s o = ground arith

  pub finish-IsOpen : (s : Ingress Row) → IsOpen s → IsOpen (finish s).0
  unfolding finish
  finish-IsOpen s o = ground arith

  module _ {Frame : Type 0} (validate : Frame → Option Row) where
    pub drain_many-IsOpen :
        (m : ℕ) (frames : List (Recv Frame)) (s : Ingress Row)
        → IsOpen s
        → IsOpen (drain_many validate m frames s).0
    unfolding drain_many
    drain_many-IsOpen m frames s o =
        let (e, i, same) = receive-counts validate m frames s in
        let read : IsOpen (receive validate m frames s).0 =
          rw same (record { running = o.running; real = o.real }) in
        batch (receive validate m frames s).1 read
      where
        batch :
            (rows : List Row)
            → IsOpen (receive validate m frames s).0
            → IsOpen (elim rows as (λ _. Ingress Row) [
              | [] ↦ (receive validate m frames s).0
              | row ∷ rest ↦ enqueue (row ∷ rest) (receive validate m frames s).0
            ])
        batch [] read = read
        batch (row ∷ rest) read = enqueue-IsOpen (row ∷ rest) _ read

    pub step-IsOpen :
        (x : Event Frame) (h : History Row)
        → is_open x ≡ true
        → IsOpen h.ingress
        → IsOpen (step validate x h).ingress
    unfolding step
    step-IsOpen (drain m frames) h p o = elim (Option-cases h.ingress.waiting) [
      | inl free ↦ rw (free, step) (drain_many-IsOpen m frames h.ingress o)
      | inr (rows, waits) ↦ rw (waits, step) o
    ]
    step-IsOpen resumes h p o = resume-IsOpen h.ingress o
    step-IsOpen cancels h p o = cancel-IsOpen h.ingress o
    step-IsOpen takes h p o = get_batch-IsOpen h.ingress o
    step-IsOpen finishes h p o = finish-IsOpen h.ingress o
    step-IsOpen exits h p o = cc

    pub run-IsOpen :
        (events : List (Event Frame)) (h : History Row)
        → All (λ x. is_open x ≡ true) events
        → IsOpen h.ingress
        → IsOpen (run validate events h).ingress
    unfolding run
    run-IsOpen [] h p o = o
    run-IsOpen (x ∷ events) h p o =
        run-IsOpen events (step validate x h) p.1 (step-IsOpen x h p.0 o)
