-- ===== src/Ingress.antt =====
-- messaging/ingress.py: the way of a row from the socket to the sink. One worker drains the socket,
-- one task persists batches, and a semaphore bounds the batches between them. Each event is what
-- runs between two awaits; the put on the unbounded queue never suspends, so it is part of its
-- event. `validate` is the decoding of a frame with the checks of protocol.py; the sink's own
-- accounts are in Sink.antt.
pub mod Credits
pub mod Inside
pub mod Order
pub mod Account
pub mod Open
pub mod Flush
use sqtseries.Prelude.{
  ℕ, zero, suc, ◌+◌, ◌-◌, ◌*◌, ◌/◌, ◌%◌, ◌^◌, ◌≤◌, ◌<◌, min, max, String, ◌≡◌, refl, sym, ap, ◌∙◌,
  ◌≢◌, ◌↔◌, ◌⊎◌, inl, inr, Bool, true, false, ◌&&◌, ◌||◌, not, Option, none, some, List, [], ◌∷◌,
  ◌++◌, map, arith, ltb, leb, ◌==◌, if◌then◌else◌, ltb→lt, lt→ltb, leb→le, ==_iff, Bool-cases,
  Option-cases, Eq, eq_of_discrete, string_discrete, pair_eq, option_eq, nat_eq, string_eq, length,
  take, drop, keep, length-append, length-take, length-drop, length-keep-le, All, All-append,
}

-- what `socket.recv(NOBLOCK)` gives
pub data Recv (Frame : Type 0) : Type 0 where
  got : Frame → Recv Frame
  again failed : Recv Frame

-- `none` on the queue is the sentinel of `drain_inflight`.
pub record Ingress (Row : Type 0) : Type 0 where
  pub pending_max : ℕ
  pub credits : ℕ
  pub pending : List (Option (List Row))
  pub waiting : Option (List Row)
  pub in_sink : Option (List Row)
  pub exited : Bool
  pub enqueued : ℕ
  pub persisted : ℕ
  pub backpressured : Bool
  pub recv_count : ℕ
  pub error_count : ℕ
  pub invalid_count : ℕ

module _ {Row : Type 0} where
  unfoldable pub init : ℕ → Ingress Row
  init pending_max = record {
    pending_max = pending_max;
    credits = pending_max;
    pending = [];
    waiting = none;
    in_sink = none;
    exited = false;
    enqueued = 0;
    persisted = 0;
    backpressured = false;
    recv_count = 0;
    error_count = 0;
    invalid_count = 0;
  }

  module _ {Frame : Type 0} (validate : Frame → Option Row) where
    -- `_parse`
    unfoldable pub parse : Frame → Ingress Row → Ingress Row × List Row
    parse raw s = elim (validate raw) [
      | none ↦ (record s { invalid_count = s.invalid_count + 1 }, [])
      | some row ↦ (record s { recv_count = s.recv_count + 1 }, row ∷ [])
    ]

    -- the loop of `drain_many`; a drain that is cancelled between two frames has read fewer
    unfoldable pub receive : ℕ → List (Recv Frame) → Ingress Row → Ingress Row × List Row
    unfolding parse
    receive zero frames s = (s, [])
    receive (suc n) [] s = (s, [])
    receive (suc n) (again ∷ frames) s = (s, [])
    receive (suc n) (failed ∷ frames) s = (record s { error_count = s.error_count + 1 }, [])
    receive (suc n) (got raw ∷ frames) s =
        let (s', row) = parse raw s in let (s'', rows) = receive n frames s' in (s'', row ++ rows)

  -- a batch that has its credit goes on the queue
  abbrev pub put : List Row → Ingress Row → Ingress Row
  put rows s = record s {
    credits = s.credits - 1;
    pending = s.pending ++ some rows ∷ [];
    waiting = none;
    enqueued = s.enqueued + 1;
    backpressured = false;
  }

  -- `_enqueue`, up to the credit: without one the drain is suspended
  unfoldable pub enqueue : List Row → Ingress Row → Ingress Row
  enqueue rows s =
      if s.credits == 0 then record s { waiting = some rows; backpressured = true } else put rows s

  unfoldable pub drain_many :
      {Frame : Type 0}
      → (Frame → Option Row)
      → ℕ
      → List (Recv Frame)
      → Ingress Row
      → Ingress Row × List Row
  unfolding receive enqueue
  drain_many validate max_messages frames s =
      let (s', rows) = receive validate max_messages frames s in
      (elim rows [ [] ↦ s' | row ∷ rest ↦ enqueue (row ∷ rest) s' ], rows)

  -- the suspended drain, when the semaphore has a credit
  unfoldable pub resume : Ingress Row → Ingress Row
  resume s = elim s.waiting [ none ↦ s | some rows ↦ if s.credits == 0 then s else put rows s ]

  -- the suspended drain is cancelled; its rows are returned
  unfoldable pub cancel : Ingress Row → Ingress Row × List Row
  cancel s = elim s.waiting [
    | none ↦ (s, [])
    | some rows ↦ (record s { waiting = none; backpressured = false }, rows)
  ]

  -- `await self._pending.get()` of `_persist_loop`
  unfoldable pub get_item : List (Option (List Row)) → Ingress Row → Ingress Row
  get_item [] s = s
  get_item (none ∷ rest) s = record s { pending = rest; exited = true }
  get_item (some rows ∷ rest) s = record s { pending = rest; in_sink = some rows }

  unfoldable pub get_batch : Ingress Row → Ingress Row
  unfolding get_item
  get_batch s =
      if s.exited then s else elim s.in_sink [ some rows ↦ s | none ↦ get_item s.pending s ]

  -- `_dispatch` has returned or raised; the batch is handed over
  unfoldable pub finish : Ingress Row → Ingress Row × List Row
  finish s = elim s.in_sink [
    | none ↦ (s, [])
    | some rows ↦
        (record s { in_sink = none; persisted = s.persisted + 1; credits = s.credits + 1 }, rows)
  ]

  -- `drain_inflight` queues its sentinel
  unfoldable pub put_exit : Ingress Row → Ingress Row
  put_exit s = if s.exited then s else record s { pending = s.pending ++ none ∷ [] }

-- A history: the ingress with the rows that were accepted, those that the sink was given, and those
-- that a cancelled drain took along.
pub record History (Row : Type 0) : Type 0 where
  pub ingress : Ingress Row
  pub accepted : List Row
  pub dispatched : List Row
  pub lost : List Row

pub data Event (Frame : Type 0) : Type 0 where
  drain : ℕ → List (Recv Frame) → Event Frame
  resumes cancels takes finishes exits : Event Frame

module _ {Row Frame : Type 0} (validate : Frame → Option Row) where
  -- a worker that is suspended does not drain
  unfoldable pub step : Event Frame → History Row → History Row
  unfolding drain_many resume cancel get_batch finish put_exit
  step (drain n frames) h = elim h.ingress.waiting [
    | some rows ↦ h
    | none ↦
        let (s, rows) = drain_many validate n frames h.ingress in
        record h { ingress = s; accepted = h.accepted ++ rows }
  ]
  step resumes h = record h { ingress = resume h.ingress }
  step cancels h =
      let (s, rows) = cancel h.ingress in record h { ingress = s; lost = h.lost ++ rows }
  step takes h = record h { ingress = get_batch h.ingress }
  step finishes h =
      let (s, rows) = finish h.ingress in
      record h { ingress = s; dispatched = h.dispatched ++ rows }
  step exits h = record h { ingress = put_exit h.ingress }

  unfoldable pub run : List (Event Frame) → History Row → History Row
  unfolding step
  run [] h = h
  run (e ∷ events) h = run events (step e h)

unfoldable pub start : {Row : Type 0} → ℕ → History Row
unfolding init
start pending_max = record { ingress = init pending_max; accepted = []; dispatched = []; lost = [] }
