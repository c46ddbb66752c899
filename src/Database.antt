-- ===== src/Database.antt =====
-- engine/db.py: the handles of a database file: a bounded last-in-first-out pool of readers with
-- slots, and the writer that is replaced after a failure. A handle is a number; `handles` are
-- those that are open in the process. Whether an open, a statement or a rollback succeeds is a
-- parameter. A checkout, a check-in, a writer transaction and `dispose` each run as a whole.
pub mod Handles
pub mod History
pub mod Writer
use sqtseries.Prelude.{
  ℕ, zero, suc, ◌+◌, ◌-◌, ◌*◌, ◌/◌, ◌%◌, ◌^◌, ◌≤◌, ◌<◌, min, max, String, ◌≡◌, refl, sym, ap, ◌∙◌,
  ◌≢◌, ◌↔◌, ◌⊎◌, inl, inr, Bool, true, false, ◌&&◌, ◌||◌, not, Option, none, some, List, [], ◌∷◌,
  ◌++◌, map, arith, ltb, leb, ◌==◌, if◌then◌else◌, ltb→lt, lt→ltb, leb→le, ==_iff, Bool-cases,
  Option-cases, Eq, eq_of_discrete, string_discrete, pair_eq, option_eq, nat_eq, string_eq, length,
  take, drop, keep, length-append, length-take, length-drop, length-keep-le, All, All-append,
}
use sqtseries.Prelude.Pick.{pick}

-- a reader that is checked out, with whether it has a slot
pub record Checkout : Type 0 where
  pub handle : ℕ
  pub pooled : Bool

pub record Database : Type 0 where
  pub reader_pool_size : ℕ
  pub reader_pool : List ℕ
  pub reader_slots : ℕ
  pub writer_conn : Option ℕ
  pub disposed : Bool
  pub handles : List ℕ
  pub opened : ℕ
  pub out : List Checkout

abbrev pub fresh : ℕ → Database
fresh size = record {
  reader_pool_size = size;
  reader_pool = [];
  reader_slots = size;
  writer_conn = none;
  disposed = false;
  handles = [];
  opened = 0;
  out = [];
}

-- `__init__`; a pool of size 0 is a `ValueError`
unfoldable pub init : ℕ → Option Database
init size = if size == 0 then none else some (fresh size)

-- `_open`, when it succeeds
abbrev pub open_handle : Database → Database
open_handle s = record s { handles = s.opened ∷ s.handles; opened = s.opened + 1 }

abbrev pub closed : ℕ → List ℕ → List ℕ
closed h = keep (λ x. not (x == h))

-- `_checkout_reader`; `none` is its exception
unfoldable pub checkout_reader : Bool → Bool → List ℕ → Database → Option (Database × ℕ)
checkout_reader opens true (h ∷ pool) s = some (record s { reader_pool = pool }, h)
checkout_reader opens pooled pool s = if opens then some (open_handle s, s.opened) else none

-- a slot, if one is given, and a handle
unfoldable pub checkout : Bool → Bool → List ℕ → Database → Database × Bool
unfolding checkout_reader
checkout opens slot pool s =
    let s' = if slot then record s { reader_slots = s.reader_slots - 1 } else s in
    elim (checkout_reader opens slot pool s') [
      | none ↦ (s', false)
      | some (s'', h) ↦ (record s'' { out = record { handle = h; pooled = slot } ∷ s''.out }, true)
    ]

-- `connect` up to its `yield`, where a slot is given if one is free before the time-out
unfoldable pub connect : Bool → Database → Database × Bool
unfolding checkout
connect opens s = checkout opens (ltb 0 s.reader_slots) s.reader_pool s

-- `_checkin_reader`, where `clean` says that the handle is not broken
unfoldable pub checkin_reader : Bool → Checkout → Database → Database
checkin_reader clean c s =
    if not c.pooled || s.disposed || not clean || leb s.reader_pool_size (length s.reader_pool)
    then record s { handles = closed c.handle s.handles }
    else record s { reader_pool = c.handle ∷ s.reader_pool }

-- the `finally` of `connect`
unfoldable pub disconnect : Bool → Checkout → Database → Database
unfolding checkin_reader
disconnect clean c s =
    let s' = checkin_reader clean c s in
    if c.pooled then record s' { reader_slots = s'.reader_slots + 1 } else s'

-- `_get_writer`; `none` is the exception of `_open`
unfoldable pub get_writer : Bool → Database → Option (Database × ℕ)
get_writer opens s = elim s.writer_conn [
  | some h ↦ some (s, h)
  | none ↦
      if opens
      then some (record (open_handle s) { writer_conn = some s.opened }, s.opened)
      else none
]

unfoldable pub quarantine_writer : ℕ → Database → Database
quarantine_writer h s = record s {
  writer_conn = elim s.writer_conn [ none ↦ none | some w ↦ if w == h then none else some w ];
  handles = closed h s.handles;
}

-- what `BEGIN IMMEDIATE` does: it starts the transaction, the handle is dead, or another error
pub data Begun : Type 0 where
  started dead busy : Begun

-- what the environment does in one call of `begin`
pub record Attempt : Type 0 where
  pub opens : Bool
  pub first : Begun
  pub reopens : Bool
  pub second : Begun
  pub body : Bool

-- the transaction on a handle that has started it: committed or not
unfoldable pub transact : Bool → ℕ → Database → Database × Bool
unfolding quarantine_writer
transact body h s = if body then (s, true) else (quarantine_writer h s, false)

-- the second try, on a fresh handle
unfoldable pub begin_again : Attempt → Database → Database × Bool
unfolding get_writer quarantine_writer transact
begin_again a s = elim (get_writer a.reopens s) [
  | none ↦ (s, false)
  | some (s', h) ↦ elim a.second [
    | started ↦ transact a.body h s'
    | dead ↦ (quarantine_writer h s', false)
    | busy ↦ (quarantine_writer h s', false)
  ]
]

unfoldable pub begin : Attempt → Database → Database × Bool
unfolding get_writer quarantine_writer transact begin_again
begin a s = elim (get_writer a.opens s) [
  | none ↦ (s, false)
  | some (s', h) ↦ elim a.first [
    | started ↦ transact a.body h s'
    | dead ↦ begin_again a (quarantine_writer h s')
    | busy ↦ (quarantine_writer h s', false)
  ]
]

-- `checkpoint`, where `works` says that the statement does not raise
unfoldable pub checkpoint : Bool → Bool → Database → Database × Bool
unfolding get_writer quarantine_writer
checkpoint opens works s = elim (get_writer opens s) [
  | none ↦ (s, false)
  | some (s', h) ↦ if works then (s', true) else (quarantine_writer h s', false)
]

-- the loop of `dispose` over the pool
unfoldable pub drain_pool : List ℕ → List ℕ → List ℕ
drain_pool [] handles = handles
drain_pool (h ∷ pool) handles = drain_pool pool (closed h handles)

unfoldable pub dispose : Database → Database
unfolding drain_pool
dispose s = record s {
  disposed = true;
  reader_pool = [];
  handles = elim s.writer_conn [
    | none ↦ drain_pool s.reader_pool s.handles
    | some w ↦ closed w (drain_pool s.reader_pool s.handles)
  ];
  writer_conn = none;
}
