-- ===== src/Protocol/Clock.antt =====
-- messaging/protocol.py: the timestamps that the server gives.
use sqtseries.Prelude.{
  ℕ, ◌+◌, ◌≤◌, ◌<◌, max, ◌≡◌, refl, Bool, Option, none, some, List, [], ◌∷◌, ◌++◌, arith, leb,
  if◌then◌else◌, nat_eq, string_eq, length,
}
use sqtseries.Prelude.Text.{Text}
use sqtseries.Protocol.{Floats, Stamp, unset, whole, fraction, Tags, IngestMessage, place, to_rows}

module _ {F : Type 0} (floats : Floats F) (iso_to_ns : Text → Option (Bool × ℕ)) where
  -- a timestamp that the server has given, after the reading of the clock for it
  abbrev pub given : ℕ → Stamp F → Bool × ℕ → List (ℕ × ℕ)
  given now unset (sign, ts) = (now, ts) ∷ []
  given now _ ts = []

  -- the messages of a process, each with the reading of the clock, from the last timestamp given
  unfoldable pub to_rows_all : List (ℕ × IngestMessage F) → ℕ → List (ℕ × ℕ) × ℕ
  unfolding to_rows
  to_rows_all [] last = ([], last)
  to_rows_all ((now, m) ∷ messages) last = elim (to_rows floats iso_to_ns now last m) [
    | none ↦ to_rows_all messages last
    | some (row, last') ↦
        let (stamps, end) = to_rows_all messages last' in
        (given now m.timestamp row.3 ++ stamps, end)
  ]

  -- From `last` the timestamps go up, each is at its reading of the clock or later, and `end` is the
  -- last one.
  abbrev pub GoesUp : ℕ → List (ℕ × ℕ) → ℕ → Type 0
  GoesUp last [] end = end ≡ last
  GoesUp last ((now, ts) ∷ stamps) end = (last < ts) × (now ≤ ts) × GoesUp ts stamps end

  abbrev pub latest_reading : List (ℕ × ℕ) → ℕ
  latest_reading [] = 0
  latest_reading ((now, ts) ∷ stamps) = max now (latest_reading stamps)

  -- one timestamp more
  Good : ℕ → List (ℕ × ℕ) × ℕ → Type 0
  Good last (stamps, end) =
      GoesUp last stamps end × (end ≤ max last (latest_reading stamps) + length stamps)

  Good-rows :
      (messages : List (ℕ × IngestMessage F)) (last : ℕ) → Good last (to_rows_all messages last)
  unfolding to_rows_all to_rows place Good
  Good-rows [] last = (refl, omega arith)
  Good-rows ((now, m) ∷ messages) last = placed m.timestamp (λ l. Good-rows messages l)
    where
      on_float :
          (f : F) (o : Option (Bool × ℕ))
          → ((l : ℕ) → Good l (to_rows_all messages l))
          → Good last
              (elim (elim (elim o as (λ _. Option ((Bool × ℕ) × ℕ)) [
                | none ↦ none
                | some ts ↦ some (ts, last)
              ])
                  as (λ _. Option ((Text × Option Tags × F × (Bool × ℕ)) × ℕ)) [
                    | none ↦ none
                    | some (ts, last') ↦ some ((m.metric, m.tags, m.value, ts), last')
                  ])
                as (λ _. List (ℕ × ℕ) × ℕ) [
                  | none ↦ to_rows_all messages last
                  | some (row, last') ↦
                      let (stamps, end) = to_rows_all messages last' in
                      (given now (fraction f) row.3 ++ stamps, end)
                ])
      on_float f none again = again last
      on_float f (some ts) again = again last

      placed :
          (stamp : Stamp F)
          → ((l : ℕ) → Good l (to_rows_all messages l))
          → Good last
              (elim (elim (place floats iso_to_ns now last stamp)
                  as (λ _. Option ((Text × Option Tags × F × (Bool × ℕ)) × ℕ)) [
                    | none ↦ none
                    | some (ts, last') ↦ some ((m.metric, m.tags, m.value, ts), last')
                  ])
                as (λ _. List (ℕ × ℕ) × ℕ) [
                  | none ↦ to_rows_all messages last
                  | some (row, last') ↦
                      let (stamps, end) = to_rows_all messages last' in
                      (given now stamp row.3 ++ stamps, end)
                ])
      placed unset again =
          let ts = if leb now last then last + 1 else now in
          let (up, near) = again ts in ((ground arith, ground arith, up), ground (arith, near))
      placed (whole s n) again = again last
      placed (fraction f) again = on_float f (floats.to_ns f) again

  -- Whatever the clock reads, also when it stands still or goes back: the timestamps that the server
  -- gives to a sequence of messages go up strictly from the last one it has given, and none is before
  -- its reading. The last of them is ahead of the latest reading, or of the one given before, by at
  -- most 1 for each timestamp given.
  pub to_rows-GoesUp :
      (messages : List (ℕ × IngestMessage F)) (last : ℕ)
      → GoesUp last (to_rows_all messages last).0 (to_rows_all messages last).1
        × ((to_rows_all messages last).1
            ≤ max last (latest_reading (to_rows_all messages last).0)
              + length (to_rows_all messages last).0)
  unfolding Good
  to_rows-GoesUp messages last = Good-rows messages last
