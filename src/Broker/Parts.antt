-- ===== src/Broker/Parts.antt =====
-- messaging/broker.py: what the parts of a task do to the broker.
use sqtseries.Prelude.{
  ℕ, ◌+◌, ◌≡◌, refl, inl, inr, Bool, true, Option, List, [], ◌∷◌, arith, Option-cases, nat_eq,
  string_eq,
}
use sqtseries.Prelude.Text.{Text}
use sqtseries.Broker.{
  Outcome, Reply, Broker, last, dispatch, begin_dispatch, reply_to, enter, leave, enter_router,
  leave_router, Fate, send_router, send_reply,
}
use sqtseries.Broker.History.{is_dropped, is_skipped, is_failure, decodes, asks}

module _ {Query Answer : Type 0} (loads : Text → Option Query)
    (handler : Option (Query → Outcome Answer × ℕ)) where
  -- what the two parts of a task do to the broker
  pub record Entered (n : ℕ) (b r : Broker) : Type 0 where
    pub tasks : r.router_tasks ≡ b.router_tasks
    pub same_max : r.max_inflight ≡ b.max_inflight
    pub dropped : r.replies_dropped ≡ b.replies_dropped
    pub failed : r.errors ≡ b.errors
    pub counted : r.requests ≡ b.requests + n
    pub same_socket : r.socket ≡ b.socket

  pub enter_router-Entered :
      (frames : List Text) (b : Broker)
      → Entered (asks loads handler frames) b (enter_router loads handler frames b)
  unfolding enter_router enter begin_dispatch decodes
  enter_router-Entered [] b = record {
    tasks = refl;
    same_max = refl;
    dropped = refl;
    failed = refl;
    counted = omega arith;
    same_socket = refl;
  }
  enter_router-Entered (frame ∷ frames) b = decoded (last frame frames)
    where
      decoded : (raw : Text) → Entered (decodes loads handler raw) b (enter loads handler raw b)
      decoded raw = elim (Option-cases (loads raw)) [
        | inl bad ↦
            rw (bad, enter, decodes)
              (record {
                tasks = refl;
                same_max = refl;
                dropped = refl;
                failed = refl;
                counted = omega arith;
                same_socket = refl;
              })
        | inr (query, good) ↦
            rw (good, enter, decodes)
              (record {
                tasks = refl;
                same_max = refl;
                dropped = refl;
                failed = refl;
                counted = omega arith;
                same_socket = refl;
              })
      ]

  pub record Left (b : Broker) (r : Broker × Reply Answer) : Type 0 where
    pub tasks : r.0.router_tasks ≡ b.router_tasks
    pub same_max : r.0.max_inflight ≡ b.max_inflight
    pub dropped : r.0.replies_dropped ≡ b.replies_dropped
    pub failed : r.0.errors ≡ b.errors + is_failure r.1
    pub counted : r.0.requests ≡ b.requests
    pub same_socket : r.0.socket ≡ b.socket

  pub leave_router-Left :
      (frames : List Text) (b : Broker) → Left b (leave_router loads handler frames b)
  unfolding leave_router leave reply_to
  leave_router-Left [] b = record {
    tasks = refl;
    same_max = refl;
    dropped = refl;
    failed = omega arith;
    counted = refl;
    same_socket = refl;
  }
  leave_router-Left (frame ∷ frames) b = decoded (last frame frames)
    where
      replied : (o : Outcome Answer) → Left b (reply_to o b)
      replied o = record {
        tasks = ground arith;
        same_max = ground arith;
        dropped = ground arith;
        failed = ground arith;
        counted = ground arith;
        same_socket = ground arith;
      }

      decoded : (raw : Text) → Left b (leave loads handler raw b)
      decoded raw = elim (Option-cases (loads raw)) [
        | inl bad ↦
            rw (bad, leave)
              (record {
                tasks = refl;
                same_max = refl;
                dropped = refl;
                failed = omega arith;
                counted = refl;
                same_socket = refl;
              })
        | inr (query, good) ↦ rw (good, leave) (replied (dispatch loads handler query b))
      ]

  -- what the end of a task with a socket does
  pub record Sent (b : Broker) (r : Broker × Fate) : Type 0 where
    pub same_tasks : r.0.router_tasks ≡ b.router_tasks
    pub same_max : r.0.max_inflight ≡ b.max_inflight
    pub dropped : r.0.replies_dropped ≡ b.replies_dropped + is_dropped r.1
    pub failed : r.0.errors ≡ b.errors
    pub counted : r.0.requests ≡ b.requests
    pub same_socket : r.0.socket ≡ b.socket
    pub unskipped : is_skipped r.1 ≡ 0

  pub send_reply-Sent :
      (encodes sends : Bool) (b : Broker) → b.socket ≡ true → Sent b (send_reply encodes sends b)
  unfolding send_reply send_router
  send_reply-Sent encodes sends b opened = record {
    same_tasks = ground (arith, opened);
    same_max = ground (arith, opened);
    dropped = ground (arith, opened);
    failed = ground (arith, opened);
    counted = ground (arith, opened);
    same_socket = ground (arith, opened);
    unskipped = ground (arith, opened);
  }
