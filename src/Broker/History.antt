-- ===== src/Broker/History.antt =====
-- messaging/broker.py: histories of a broker with a ROUTER socket, and what holds after them.
use sqtseries.Prelude.{
  ℕ, ◌+◌, ◌≤◌, ◌≡◌, ◌⊎◌, Bool, true, false, Option, none, some, List, [], ◌∷◌, ◌++◌, map,
  if◌then◌else◌, nat_eq, string_eq, length,
}
use sqtseries.Prelude.Text.{Text, list_beq}
use sqtseries.Prelude.Distinct.{times}
use sqtseries.Prelude.Pick.{pick, weight}
use sqtseries.Broker.{
  Outcome, query_timeout, internal_error, Reply, error, Request, Task, Broker, init, last, dispatch,
  begin_dispatch, reply_to, enter, leave, enter_router, leave_router, Fate, was_sent, was_dropped,
  was_skipped, not_encoded, send_router, send_reply, run_once, stop,
}
use sqtseries.Broker as Source

-- A task that ended, with its reply and what became of it.
pub record Answered (Answer : Type 0) : Type 0 where
  pub request : Request
  pub reply : Reply Answer
  pub fate : Fate

pub record History (Answer : Type 0) : Type 0 where
  pub broker : Broker
  pub accepted : List Text
  pub answers : List (Answered Answer)
  pub stopping : Bool

-- `runs` is a call of `run_once`, which its loop no longer makes once `stop` is called: `shutdown` of
-- service.py ends that loop first. `stops` is the call and the progress of `stop`; `begins` is a
-- task, by its place, that calls its handler, and `finishes` one that ends, with whether its reply
-- is encoded and whether the send succeeds.
pub data Event : Type 0 where
  runs : Option Request → Event
  begins : ℕ → Event
  finishes : ℕ → Bool → Bool → Event
  stops : Event

abbrev pub taken : Option Bool → Option Request → List Text
taken (some true) (some request) = request.identity ∷ []
taken _ _ = []

abbrev pub is_dropped : Fate → ℕ
is_dropped was_dropped = 1
is_dropped _ = 0

abbrev pub is_skipped : Fate → ℕ
is_skipped was_skipped = 1
is_skipped _ = 0

module _ {Answer : Type 0} where
  abbrev pub answered : List (Answered Answer) → List Text
  answered = map (λ a. a.request.identity)

  abbrev pub is_failure : Reply Answer → ℕ
  is_failure (error query_timeout) = 1
  is_failure (error internal_error) = 1
  is_failure _ = 0

abbrev pub is_from : Text → Task → ℕ
is_from id t = if list_beq t.request.identity id then 1 else 0

abbrev pub start : {Answer : Type 0} → Option ℕ → ℕ → History Answer
start timeout max_inflight = record {
  broker = Source.start (init timeout max_inflight);
  accepted = [];
  answers = [];
  stopping = false;
}

module _ {Query Answer : Type 0} (loads : Text → Option Query)
    (handler : Option (Query → Outcome Answer × ℕ)) where
  -- a task that has begun does not begin again
  unfoldable pub begin_one : Bool → Request → List Task → History Answer → History Answer
  unfolding enter_router
  begin_one true request others h = h
  begin_one false request others h = record h {
    broker =
        enter_router loads handler request.frames
          (record h.broker { router_tasks = record { request = request; begun = true } ∷ others });
  }

  unfoldable pub begin_picked : Option (Task × List Task) → History Answer → History Answer
  unfolding begin_one
  begin_picked none h = h
  begin_picked (some (task, others)) h = begin_one task.begun task.request others h

  -- a task ends after it has begun
  unfoldable pub finish_one :
      Bool → Bool → Bool → Request → List Task → History Answer → History Answer
  unfolding leave_router send_reply
  finish_one false encodes sends request others h = h
  finish_one true encodes sends request others h =
      let (b, reply) =
        leave_router loads handler request.frames (record h.broker { router_tasks = others }) in
      let (b', fate) = send_reply encodes sends b in
      record h {
        broker = b';
        answers = record { request = request; reply = reply; fate = fate } ∷ h.answers;
      }

  unfoldable pub finish_picked :
      Bool → Bool → Option (Task × List Task) → History Answer → History Answer
  unfolding finish_one
  finish_picked encodes sends none h = h
  finish_picked encodes sends (some (task, others)) h =
      finish_one task.begun encodes sends task.request others h

  unfoldable pub step : Event → History Answer → History Answer
  unfolding run_once pick begin_picked finish_picked stop
  step (runs incoming) h =
      let (b, handled) = run_once incoming h.broker in
      if h.stopping
      then h
      else record h { broker = b; accepted = h.accepted ++ taken handled incoming }
  step (begins n) h = begin_picked (pick n h.broker.router_tasks) h
  step (finishes n encodes sends) h = finish_picked encodes sends (pick n h.broker.router_tasks) h
  step stops h = record h { broker = stop h.broker; stopping = true }

  unfoldable pub run : List Event → History Answer → History Answer
  unfolding step
  run [] h = h
  run (x ∷ events) h = run events (step x h)

  -- a request with a payload that decodes is counted
  unfoldable pub decodes : Text → ℕ
  decodes raw = elim (loads raw) [ none ↦ 0 | some query ↦ 1 ]

  abbrev pub asks : List Text → ℕ
  asks [] = 0
  asks (frame ∷ frames) = decodes (last frame frames)

  abbrev pub begun_asks : Task → ℕ
  begun_asks t = if t.begun then asks t.request.frames else 0

  pub record IsAnswered (h : History Answer) : Type 0 where
    pub bound : length h.broker.router_tasks ≤ h.broker.max_inflight
    pub once :
        (id : Text)
        → times id h.accepted
          ≡ times id (answered h.answers) + weight (is_from id) h.broker.router_tasks
    pub dropped : h.broker.replies_dropped ≡ weight (λ a. is_dropped a.fate) h.answers
    pub failed : h.broker.errors ≡ weight (λ a. is_failure a.reply) h.answers
    pub counted :
        h.broker.requests
        ≡ weight (λ a. asks a.request.frames) h.answers + weight begun_asks h.broker.router_tasks
    pub closed : (h.broker.socket ≡ true) ⊎ (h.broker.router_tasks ≡ [])
    pub unskipped : weight (λ a. is_skipped a.fate) h.answers ≡ 0
