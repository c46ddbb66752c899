-- ===== src/Registry/Counts.antt =====
-- messaging/connection_registry.py: sequences of calls, and the counts and tables after them.
use sqtseries.Prelude.{ap, ◌∙◌, Option-cases, refl}
use sqtseries.Registry.{init, register_ws, touch_ws, unregister_ws, subscriber_count}
use sqtseries.Prelude.{
  ℕ, ◌+◌, ◌-◌, ◌≤◌, ◌≡◌, refl, sym, inl, inr, Bool, true, false, ◌||◌, Option, none, some, List, [],
  ◌∷◌, arith, ◌==◌, if◌then◌else◌, Bool-cases, Option-cases, nat_eq, string_eq,
}
use sqtseries.Prelude.Text.{Text, text_eq, list_beq, list_beq_iff}
use sqtseries.Dict.{lookup, lookup-assign, lookup-without}
use sqtseries.Registry.{
  Registry, count_or_zero, setdefault, register_ws, unregister_ws, register_zmq_sub,
  unregister_zmq_sub, touch_ws,
}

pub data Call : Type 0 where
  join leave : Text → ℕ → Call
  enter : Text → Text → Text → ℕ → Call
  exit touch : Text → ℕ → Call

abbrev pub call : Call → Registry → Registry
call (join topic now) reg = (register_zmq_sub topic now reg).0
call (leave topic now) reg = (unregister_zmq_sub topic now reg).0
call (enter conn_id peer topic now) reg = (register_ws conn_id peer topic now reg).0
call (exit conn_id now) reg = (unregister_ws conn_id now reg).0
call (touch conn_id now) reg = touch_ws conn_id now reg

unfoldable pub run : List Call → Registry → Registry
run [] reg = reg
run (c ∷ calls) reg = run calls (call c reg)

-- what a call does to the count of a topic: a leave at zero does nothing
abbrev pub counted : Text → Call → ℕ → ℕ
counted t (join topic now) n = if list_beq topic t then n + 1 else n
counted t (leave topic now) n = if list_beq topic t then n - 1 else n
counted t _ n = n

abbrev pub level : Text → List Call → ℕ → ℕ
level t [] n = n
level t (c ∷ calls) n = level t calls (counted t c n)

abbrev pub is_some : Option ℕ → Bool
is_some none = false
is_some (some n) = true

abbrev pub count_of : Text → Registry → ℕ
count_of t reg = count_or_zero (lookup t reg.zmq_subs)

pub record IsConsistent (reg : Registry) : Type 0 where
  pub positive : (t : Text) (n : ℕ) → lookup t reg.zmq_subs ≡ some n → 1 ≤ n
  pub seen : (t : Text) → is_some (lookup t reg.zmq_first_seen) ≡ is_some (lookup t reg.zmq_subs)
  pub known :
      (t : Text) → is_some (lookup t reg.zmq_subs) ≡ true → is_some (lookup t reg.zmq_known) ≡ true

lookup-setdefault :
    (k t : Text) (v : ℕ) (d : List (Text × ℕ))
    → is_some (lookup t (setdefault k v d)) ≡ (list_beq k t || is_some (lookup t d))
unfolding setdefault
lookup-setdefault k t v d = elim (Option-cases (lookup k d)) [
  | inl absent ↦ rw (absent, setdefault) (ground (arith, lookup-assign k t v d))
  | inr (w, found) ↦
      rw (found, setdefault)
        (elim (Bool-cases (list_beq k t)) [
          | inl same ↦ rw (same, sym ((list_beq_iff k t).0 same), found) refl
          | inr other ↦ rw other refl
        ])
]

count_of-call :
    (t : Text) (c : Call) (reg : Registry) → count_of t (call c reg) ≡ counted t c (count_of t reg)
unfolding register_zmq_sub unregister_zmq_sub register_ws unregister_ws touch_ws
count_of-call t (join topic now) reg =
    let n : ℕ = count_of topic reg + 1 in
    ground (arith, lookup-assign topic t n reg.zmq_subs, list_beq_iff topic t)
count_of-call t (leave topic now) reg =
    let n : ℕ = count_of topic reg - 1 in
    ground (
      arith,
      lookup-assign topic t n reg.zmq_subs,
      lookup-without topic t reg.zmq_subs,
      list_beq_iff topic t,
    )
count_of-call t (enter conn_id peer topic now) reg = refl
count_of-call t (exit conn_id now) reg = ground arith
count_of-call t (touch conn_id now) reg = ground arith

join-IsConsistent :
    (topic : Text) (now : ℕ) (reg : Registry)
    → IsConsistent reg
    → IsConsistent (register_zmq_sub topic now reg).0
unfolding register_zmq_sub
join-IsConsistent topic now reg c =
    let n : ℕ = count_of topic reg + 1 in
    record {
      positive = λ t m found. ground (arith, lookup-assign topic t n reg.zmq_subs, c.positive t m);
      seen = λ t. ground (
        arith,
        lookup-assign topic t n reg.zmq_subs,
        lookup-assign topic t now reg.zmq_first_seen,
        c.seen t,
        list_beq_iff topic t,
      );
      known = λ t there. ground (
        arith,
        lookup-assign topic t n reg.zmq_subs,
        lookup-setdefault topic t now reg.zmq_known,
        c.known t,
      );
    }

leave-IsConsistent :
    (topic : Text) (now : ℕ) (reg : Registry)
    → IsConsistent reg
    → IsConsistent (unregister_zmq_sub topic now reg).0
unfolding unregister_zmq_sub
leave-IsConsistent topic now reg c =
    let n : ℕ = count_of topic reg - 1 in
    elim (Bool-cases (n == 0)) [
      | inl last ↦
          rw (last, unregister_zmq_sub)
            (record {
              positive =
                  λ t m found. ground (arith, lookup-without topic t reg.zmq_subs, c.positive t m);
              seen = λ t. ground (
                arith,
                lookup-without topic t reg.zmq_subs,
                lookup-without topic t reg.zmq_first_seen,
                c.seen t,
              );
              known = λ t there. ground (arith, lookup-without topic t reg.zmq_subs, c.known t);
            })
      | inr more ↦
          rw (more, unregister_zmq_sub)
            (record {
              positive =
                  λ t m found. ground (arith, lookup-assign topic t n reg.zmq_subs, c.positive t m);
              seen = λ t.
                  ground
                    (arith, lookup-assign topic t n reg.zmq_subs, c.seen t, list_beq_iff topic t);
              known = λ t there.
                  ground
                    (arith, lookup-assign topic t n reg.zmq_subs, c.known t, list_beq_iff topic t);
            })
    ]

call-IsConsistent : (c : Call) (reg : Registry) → IsConsistent reg → IsConsistent (call c reg)
unfolding register_ws unregister_ws touch_ws
call-IsConsistent (join topic now) reg c = join-IsConsistent topic now reg c
call-IsConsistent (leave topic now) reg c = leave-IsConsistent topic now reg c
call-IsConsistent (enter conn_id peer topic now) reg c = record {
  positive = c.positive;
  seen = c.seen;
  known = c.known;
}
call-IsConsistent (exit conn_id now) reg c = elim (Option-cases (lookup conn_id reg.ws)) [
  | inl absent ↦ rw (absent, call, unregister_ws) c
  | inr (entry, found) ↦
      rw (found, call, unregister_ws)
        (record { positive = c.positive; seen = c.seen; known = c.known })
]
call-IsConsistent (touch conn_id now) reg c = elim (Option-cases (lookup conn_id reg.ws)) [
  | inl absent ↦ rw (absent, call, touch_ws) c
  | inr (entry, found) ↦
      rw (found, call, touch_ws) (record { positive = c.positive; seen = c.seen; known = c.known })
]

run-level :
    (calls : List Call) (reg : Registry)
    → IsConsistent reg
    → IsConsistent (run calls reg)
      × ((t : Text) → count_of t (run calls reg) ≡ level t calls (count_of t reg))
unfolding run
run-level [] reg c = (c, λ t. refl)
run-level (x ∷ calls) reg c =
    let (consistent, counts) = run-level calls (call x reg) (call-IsConsistent x reg c) in
    (consistent, λ t. counts t ∙ ap (level t calls) (count_of-call t x reg))

init-IsConsistent : IsConsistent init
unfolding lookup
init-IsConsistent = record { positive = λ t n e. cc; seen = λ t. refl; known = λ t e. cc }

-- After any calls of a new registry: a topic is in the table of counts exactly when it has a
-- subscriber and exactly when its first arrival is recorded, such a topic is a known one, and the
-- count of a topic that is not empty is the number that its joins and leaves give, a leave at zero
-- doing nothing.
pub run-IsConsistent :
    (calls : List Call)
    → IsConsistent (run calls init)
      × ((c : ℕ) (t : Text)
          → subscriber_count (some (c ∷ t)) (run calls init) ≡ level (c ∷ t) calls 0)
unfolding subscriber_count lookup
run-IsConsistent calls =
    let (consistent, counts) = run-level calls init init-IsConsistent in
    (consistent, λ c t. counts (c ∷ t))
