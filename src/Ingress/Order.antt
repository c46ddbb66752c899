-- ===== src/Ingress/Order.antt =====
-- messaging/ingress.py: the order of the rows on their way to the sink.
use sqtseries.Prelude.{
  ℕ, ◌≡◌, refl, sym, ap, ◌∙◌, Bool, true, false, Option, none, some, List, [], ◌∷◌, ◌++◌, nat_eq,
  string_eq, All,
}
use mathlib.Core.List.{append_assoc}
use sqtseries.Ingress.{
  init, drain_many, finish, History, Event, drain, resumes, cancels, takes, finishes, exits, step,
  run, start,
}
use sqtseries.Ingress.Inside.{
  inside, resume-inside, get_batch-inside, finish-inside, put_exit-inside, drain_many-inside,
}

-- a history in which no suspended drain is cancelled
abbrev pub is_calm : {Frame : Type 0} → Event Frame → Bool
is_calm cancels = false
is_calm _ = true

module _ {Row : Type 0} where
  -- what is accepted is what the sink was given and what is on its way, in this order
  abbrev pub IsInOrder : History Row → Type 0
  IsInOrder h = h.accepted ≡ h.dispatched ++ inside h.ingress

  module _ {Frame : Type 0} (validate : Frame → Option Row) where
    step-IsInOrder :
        (x : Event Frame) (h : History Row)
        → is_calm x ≡ true
        → IsInOrder h
        → IsInOrder (step validate x h)
    unfolding step
    step-IsInOrder (drain m frames) h calm c = when h.ingress.waiting refl
      where
        when :
            (o : Option (List Row))
            → h.ingress.waiting ≡ o
            → IsInOrder (elim o as (λ _. History Row) [
              | some rows ↦ h
              | none ↦ record h {
                ingress = (drain_many validate m frames h.ingress).0;
                accepted = h.accepted ++ (drain_many validate m frames h.ingress).1;
              }
            ])
        when (some rows) e = c
        when none e =
            ap (λ x. x ++ (drain_many validate m frames h.ingress).1) c
            ∙ append_assoc h.dispatched (inside h.ingress) _
            ∙ ap (◌++◌ h.dispatched) (sym (drain_many-inside validate m frames h.ingress e))
    step-IsInOrder resumes h calm c = c ∙ ap (◌++◌ h.dispatched) (sym (resume-inside h.ingress))
    step-IsInOrder cancels h calm c = cc
    step-IsInOrder takes h calm c = c ∙ ap (◌++◌ h.dispatched) (sym (get_batch-inside h.ingress))
    step-IsInOrder finishes h calm c =
        c
        ∙ ap (◌++◌ h.dispatched) (sym (finish-inside h.ingress))
        ∙ sym (append_assoc h.dispatched (finish h.ingress).1 (inside (finish h.ingress).0))
    step-IsInOrder exits h calm c = c ∙ ap (◌++◌ h.dispatched) (sym (put_exit-inside h.ingress))

    pub run_from-IsInOrder :
        (events : List (Event Frame)) (h : History Row)
        → All (λ x. is_calm x ≡ true) events
        → IsInOrder h
        → IsInOrder (run validate events h)
    unfolding run
    run_from-IsInOrder [] h calm c = c
    run_from-IsInOrder (x ∷ events) h calm c =
        run_from-IsInOrder events (step validate x h) calm.1 (step-IsInOrder x h calm.0 c)

    -- In a history in which no drain is cancelled while it waits for a credit, the accepted rows
    -- are, in this order, those that the sink was given, those that it has, those on the queue and
    -- those of the suspended drain: none is lost, doubled or overtaken.
    pub run-IsInOrder :
        (n : ℕ) (events : List (Event Frame))
        → All (λ x. is_calm x ≡ true) events
        → IsInOrder (run validate events (start n))
    unfolding start init
    run-IsInOrder n events calm = run_from-IsInOrder events (start n) calm refl
