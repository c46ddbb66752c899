-- ===== src/Broker.antt =====
-- messaging/broker.py: requests on a ROUTER or a REP socket, their dispatch to a handler, and the
-- replies. The decoding of a payload and the handler with the time it takes are parameters; a reply
-- is the value that `dumps` encodes. A task is seen before its first await, after it, and at its end.
-- No request is taken while `stop` waits for the tasks: `shutdown` of service.py ends the loop first.
pub mod History
pub mod Parts
pub mod Answers
use sqtseries.Prelude.{
  ℕ, zero, suc, ◌+◌, ◌-◌, ◌*◌, ◌/◌, ◌%◌, ◌^◌, ◌≤◌, ◌<◌, min, max, String, ◌≡◌, refl, sym, ap, ◌∙◌,
  ◌≢◌, ◌↔◌, ◌⊎◌, inl, inr, Bool, true, false, ◌&&◌, ◌||◌, not, Option, none, some, List, [], ◌∷◌,
  ◌++◌, map, arith, ltb, leb, ◌==◌, if◌then◌else◌, ltb→lt, lt→ltb, leb→le, ==_iff, Bool-cases,
  Option-cases, Eq, eq_of_discrete, string_discrete, pair_eq, option_eq, nat_eq, string_eq, length,
  take, drop, keep, length-append, length-take, length-drop, length-keep-le, All, All-append,
}
use sqtseries.Prelude.Text.{Text, text_eq}

-- what becomes of a call of the handler
pub data Outcome (Answer : Type 0) : Type 0 where
  returned : Answer → Outcome Answer
  timed_out protocol_error raised : Outcome Answer

pub data Code : Type 0 where
  query_timeout invalid_request internal_error : Code

pub data Reply (Answer : Type 0) : Type 0 where
  ok : Answer → Reply Answer
  error : Code → Reply Answer

-- the frames of a request on a ROUTER socket, the first of which is the identity
pub record Request : Type 0 where
  pub identity : Text
  pub frames : List Text

-- a task of `_handle_router`, and whether it has begun to dispatch
pub record Task : Type 0 where
  pub request : Request
  pub begun : Bool

-- `socket` is whether there is one
pub record Broker : Type 0 where
  pub socket : Bool
  pub handler_timeout : Option ℕ
  pub max_inflight : ℕ
  pub requests : ℕ
  pub errors : ℕ
  pub replies_dropped : ℕ
  pub shed_total : ℕ
  pub router_tasks : List Task

unfoldable pub init : Option ℕ → ℕ → Broker
init handler_timeout max_inflight = record {
  socket = false;
  handler_timeout = handler_timeout;
  max_inflight = if max_inflight == 0 then 64 else max_inflight;
  requests = 0;
  errors = 0;
  replies_dropped = 0;
  shed_total = 0;
  router_tasks = [];
}

-- `start`, where the socket binds
unfoldable pub start : Broker → Broker
start b = record b { socket = true }

-- `frames[-1]`
unfoldable pub last : Text → List Text → Text
last frame [] = frame
last frame (next ∷ frames) = last next frames

module _ {Answer : Type 0} where
  -- the handler within its time, where none and 0 are no limit
  unfoldable pub within : Option ℕ → Outcome Answer × ℕ → Outcome Answer
  within none (outcome, duration) = outcome
  within (some limit) (outcome, duration) =
      if limit == 0 then outcome else if ltb limit duration then timed_out else outcome

  -- the `except` clauses
  unfoldable pub reply_to : Outcome Answer → Broker → Broker × Reply Answer
  reply_to (returned answer) b = (b, ok answer)
  reply_to timed_out b = (record b { errors = b.errors + 1 }, error query_timeout)
  reply_to protocol_error b = (b, error invalid_request)
  reply_to raised b = (record b { errors = b.errors + 1 }, error internal_error)

module _ {Query Answer : Type 0} (loads : Text → Option Query)
    (handler : Option (Query → Outcome Answer × ℕ)) where
  -- `_dispatch` up to the call of the handler
  unfoldable pub begin_dispatch : Broker → Broker
  begin_dispatch b = record b { requests = b.requests + 1 }

  -- what comes of the handler
  unfoldable pub dispatch : Query → Broker → Outcome Answer
  unfolding within
  dispatch query b = elim handler [
    | none ↦ protocol_error
    | some handle ↦ within b.handler_timeout (handle query)
  ]

  -- `_handle` up to the call of the handler, and from there to the reply
  unfoldable pub enter : Text → Broker → Broker
  unfolding begin_dispatch
  enter raw b = elim (loads raw) [ none ↦ b | some query ↦ begin_dispatch b ]

  unfoldable pub leave : Text → Broker → Broker × Reply Answer
  unfolding dispatch reply_to
  leave raw b = elim (loads raw) [
    | none ↦ (b, error invalid_request)
    | some query ↦ reply_to (dispatch query b) b
  ]

  unfoldable pub handle : Text → Broker → Broker × Reply Answer
  unfolding enter leave
  handle raw b = leave raw (enter raw b)

  -- the same of `_handle_router`, on the frames after the identity
  unfoldable pub enter_router : List Text → Broker → Broker
  unfolding enter last
  enter_router [] b = b
  enter_router (frame ∷ frames) b = enter (last frame frames) b

  unfoldable pub leave_router : List Text → Broker → Broker × Reply Answer
  unfolding leave last
  leave_router [] b = (b, error invalid_request)
  leave_router (frame ∷ frames) b = leave (last frame frames) b

  -- `run_once` on a REP socket: the request that is there, if any, is answered at once
  unfoldable pub serve : Option Text → Broker → Broker × Option (Reply Answer)
  unfolding handle
  serve none b = (b, none)
  serve (some raw) b = let (b', reply) = handle raw b in (b', some reply)

-- what becomes of a reply; without a socket it is skipped
pub data Fate : Type 0 where
  was_sent was_dropped was_skipped not_encoded : Fate

-- `_send_router`: the send on the socket returns or raises
unfoldable pub send_router : Bool → Broker → Broker × Fate
send_router sends b =
    if b.socket
    then if sends
      then (b, was_sent)
      else (record b { replies_dropped = b.replies_dropped + 1 }, was_dropped)
    else (b, was_skipped)

-- the end of a task: when `dumps` raises, nothing is sent
unfoldable pub send_reply : Bool → Bool → Broker → Broker × Fate
unfolding send_router
send_reply encodes sends b = if encodes then send_router sends b else (b, not_encoded)

-- `run_once` on a ROUTER socket, with the frames that are there or an error of `recv_multipart`;
-- `none` is the RuntimeError for a broker without a socket
unfoldable pub run_once : Option Request → Broker → Broker × Option Bool
run_once incoming b =
    if not b.socket
    then (b, none)
    else if leb b.max_inflight (length b.router_tasks)
    then (record b { shed_total = b.shed_total + 1 }, some false)
    else elim incoming [
      | none ↦ (b, some false)
      | some request ↦ (
        record b {
          router_tasks = b.router_tasks ++ record { request = request; begun = false } ∷ [];
        },
        some true,
      )
    ]

-- `stop`: while tasks are left it waits, then the socket is closed
unfoldable pub stop : Broker → Broker
stop b = elim b.router_tasks [ [] ↦ record b { socket = false } | task ∷ tasks ↦ b ]
