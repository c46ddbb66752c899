-- ===== src/Ingress/Inside.antt =====
-- messaging/ingress.py: the rows between the socket and the sink, through each event.
use sqtseries.Prelude.{
  ℕ, ◌+◌, ◌≡◌, refl, sym, ap, ◌∙◌, Bool, true, false, Option, none, some, List, [], ◌∷◌, ◌++◌, ◌==◌,
  if◌then◌else◌, nat_eq, string_eq,
}
use mathlib.Core.List.{append_assoc, append-nil}
use sqtseries.Ingress.{
  Recv, Ingress, receive, put, enqueue, drain_many, resume, get_item, get_batch, finish, put_exit,
}
use sqtseries.Ingress.Credits.{receive-counts}

module _ {Row : Type 0} where
  abbrev pub rows_of : Option (List Row) → List Row
  rows_of none = []
  rows_of (some rows) = rows

  abbrev pub rows_on : List (Option (List Row)) → List Row
  rows_on [] = []
  rows_on (x ∷ pending) = rows_of x ++ rows_on pending

  -- the rows between the socket and the sink, those that the sink has first
  abbrev pub inside : Ingress Row → List Row
  inside s = rows_of s.in_sink ++ (rows_on s.pending ++ rows_of s.waiting)

  rows_on-append :
      (pending : List (Option (List Row))) (x : Option (List Row))
      → rows_on (pending ++ x ∷ []) ≡ rows_on pending ++ rows_of x
  rows_on-append [] x = append-nil (rows_of x)
  rows_on-append (y ∷ pending) x =
      ap (◌++◌ (rows_of y)) (rows_on-append pending x)
      ∙ sym (append_assoc (rows_of y) (rows_on pending) (rows_of x))

  pub put-inside :
      (rows : List Row) (s : Ingress Row)
      → inside (put rows s) ≡ rows_of s.in_sink ++ (rows_on s.pending ++ rows)
  put-inside rows s =
      ap (◌++◌ (rows_of s.in_sink))
        (append-nil (rows_on (s.pending ++ some rows ∷ [])) ∙ rows_on-append s.pending (some rows))

  pub enqueue-inside :
      (rows : List Row) (s : Ingress Row)
      → inside (enqueue rows s) ≡ rows_of s.in_sink ++ (rows_on s.pending ++ rows)
  unfolding enqueue
  enqueue-inside rows s = when (s.credits == 0)
    where
      when :
          (t : Bool)
          → inside
              (if t then record s { waiting = some rows; backpressured = true } else put rows s)
            ≡ rows_of s.in_sink ++ (rows_on s.pending ++ rows)
      when true = refl
      when false = put-inside rows s

  pub resume-inside : (s : Ingress Row) → inside (resume s) ≡ inside s
  unfolding resume
  resume-inside s = when s.waiting refl
    where
      on_credit :
          (rows : List Row) (t : Bool)
          → s.waiting ≡ some rows
          → inside (if t then s else put rows s) ≡ inside s
      on_credit rows true e = refl
      on_credit rows false e =
          put-inside rows s
          ∙ ap (λ w. rows_of s.in_sink ++ (rows_on s.pending ++ rows_of w)) (sym e)

      when :
          (o : Option (List Row))
          → s.waiting ≡ o
          → inside (elim o as (λ _. Ingress Row) [
            | none ↦ s
            | some rows ↦ if s.credits == 0 then s else put rows s
          ])
            ≡ inside s
      when none e = refl
      when (some rows) e = on_credit rows (s.credits == 0) e

  pub get_item-inside :
      (pending : List (Option (List Row))) (s : Ingress Row)
      → s.pending ≡ pending
      → s.in_sink ≡ none
      → inside (get_item pending s) ≡ inside s
  unfolding get_item
  get_item-inside [] s e idle = refl
  get_item-inside (none ∷ rest) s e idle =
      ap (λ p. rows_of s.in_sink ++ (rows_on p ++ rows_of s.waiting)) (sym e)
  get_item-inside (some rows ∷ rest) s e idle =
      sym (append_assoc rows (rows_on rest) (rows_of s.waiting))
      ∙ ap (λ p. rows_on p ++ rows_of s.waiting) (sym e)
      ∙ ap (λ o. rows_of o ++ (rows_on s.pending ++ rows_of s.waiting)) (sym idle)

  pub get_batch-inside : (s : Ingress Row) → inside (get_batch s) ≡ inside s
  unfolding get_batch
  get_batch-inside s = if_exited s.exited
    where
      when_idle :
          (o : Option (List Row))
          → s.in_sink ≡ o
          → inside (elim o as (λ _. Ingress Row) [ some rows ↦ s | none ↦ get_item s.pending s ])
            ≡ inside s
      when_idle none idle = get_item-inside s.pending s refl idle
      when_idle (some rows) busy = refl

      if_exited :
          (t : Bool)
          → inside (if t then s else elim s.in_sink [ some rows ↦ s | none ↦ get_item s.pending s ])
            ≡ inside s
      if_exited true = refl
      if_exited false = when_idle s.in_sink refl

  pub finish-inside : (s : Ingress Row) → (finish s).1 ++ inside (finish s).0 ≡ inside s
  unfolding finish
  finish-inside s = when s.in_sink refl
    where
      when :
          (o : Option (List Row))
          → s.in_sink ≡ o
          → (elim o as (λ _. Ingress Row × List Row) [
            | none ↦ (s, [])
            | some rows ↦ (
              record s { in_sink = none; persisted = s.persisted + 1; credits = s.credits + 1 },
              rows,
            )
          ]).1
              ++ inside
                  (elim o as (λ _. Ingress Row × List Row) [
                    | none ↦ (s, [])
                    | some rows ↦ (
                      record s {
                        in_sink = none;
                        persisted = s.persisted + 1;
                        credits = s.credits + 1;
                      },
                      rows,
                    )
                  ]).0
            ≡ inside s
      when none e = refl
      when (some rows) e = ap (λ o. rows_of o ++ (rows_on s.pending ++ rows_of s.waiting)) (sym e)

  pub put_exit-inside : (s : Ingress Row) → inside (put_exit s) ≡ inside s
  unfolding put_exit
  put_exit-inside s = when s.exited
    where
      when :
          (t : Bool)
          → inside (if t then s else record s { pending = s.pending ++ none ∷ [] }) ≡ inside s
      when true = refl
      when false =
          ap (λ p. rows_of s.in_sink ++ (p ++ rows_of s.waiting))
            (rows_on-append s.pending none ∙ append-nil (rows_on s.pending))

  module _ {Frame : Type 0} (validate : Frame → Option Row) where
    pub drain_many-inside :
        (m : ℕ) (frames : List (Recv Frame)) (s : Ingress Row)
        → s.waiting ≡ none
        → inside (drain_many validate m frames s).0 ≡ inside s ++ (drain_many validate m frames s).1
    unfolding drain_many
    drain_many-inside m frames s free =
        let (e, i, same) = receive-counts validate m frames s in
        batch (receive validate m frames s).1 (receive validate m frames s).0 (ap inside same)
          (ap (λ x. x.waiting) same ∙ free) (ap (λ x. rows_of x.in_sink ++ rows_on x.pending) same)
      where
        batch :
            (rows : List Row) (s' : Ingress Row)
            → inside s' ≡ inside s
            → s'.waiting ≡ none
            → (rows_of s'.in_sink ++ rows_on s'.pending ≡ rows_of s.in_sink ++ rows_on s.pending)
            → inside
                (elim rows as (λ _. Ingress Row) [ [] ↦ s' | row ∷ rest ↦ enqueue (row ∷ rest) s' ])
              ≡ inside s ++ rows
        batch [] s' same free' parts = same ∙ sym (append-nil (inside s))
        batch (row ∷ rest) s' same free' parts =
            enqueue-inside (row ∷ rest) s'
            ∙ sym (append_assoc (rows_of s'.in_sink) (rows_on s'.pending) (row ∷ rest))
            ∙ ap (λ x. x ++ row ∷ rest)
                (parts
                  ∙ sym (
                      ap (λ o. rows_of s.in_sink ++ (rows_on s.pending ++ rows_of o)) free
                      ∙ ap (◌++◌ (rows_of s.in_sink)) (append-nil (rows_on s.pending))))
