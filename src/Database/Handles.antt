-- ===== src/Database/Handles.antt =====
-- engine/db.py: the slots and the open handles over any history of calls.
use sqtseries.Prelude.{
  ℕ, ◌+◌, ◌≤◌, ◌≡◌, refl, ap, Bool, true, false, ◌||◌, not, Option, none, some, List, [], ◌∷◌,
  arith, ltb, leb, ◌==◌, if◌then◌else◌, nat_eq, string_eq, length,
}
use sqtseries.Prelude.Pick.{weight, Rest}
use sqtseries.Database.{
  Checkout, Database, open_handle, closed, checkout_reader, checkout, connect, checkin_reader,
  disconnect, get_writer, quarantine_writer, Begun, started, dead, busy, Attempt, transact,
  begin_again, begin, checkpoint, drain_pool, dispose,
}

abbrev pub copies : ℕ → List ℕ → ℕ
copies h [] = 0
copies h (x ∷ l) = (if x == h then 1 else 0) + copies h l

abbrev pub is_handle : ℕ → Checkout → ℕ
is_handle h c = if c.handle == h then 1 else 0

abbrev pub has_slot : Checkout → ℕ
has_slot c = if c.pooled then 1 else 0

abbrev pub is_writer : ℕ → Option ℕ → ℕ
is_writer h none = 0
is_writer h (some w) = if w == h then 1 else 0

-- the handles that the object knows
abbrev pub known : ℕ → Database → ℕ
known h s = copies h s.reader_pool + weight (is_handle h) s.out + is_writer h s.writer_conn

-- `lost` counts the checkouts that had a slot and whose open failed.
pub record IsTidy (size lost : ℕ) (s : Database) : Type 0 where
  pub same_size : s.reader_pool_size ≡ size
  pub slots : s.reader_slots + weight has_slot s.out + lost ≡ size
  pub pool : length s.reader_pool + weight has_slot s.out + lost ≤ size
  pub drained : length s.reader_pool ≤ (if s.disposed then 0 else size)
  pub all_known : (h : ℕ) → copies h s.handles ≡ known h s
  pub single : (h : ℕ) → copies h s.handles ≤ 1
  pub old : (h : ℕ) → s.opened ≤ h → copies h s.handles ≡ 0

copies-closed : (h x : ℕ) (l : List ℕ) → copies x (closed h l) ≡ (if x == h then 0 else copies x l)
copies-closed h x [] = ground arith
copies-closed h x (y ∷ l) = ground (arith, copies-closed h x l)

-- a handle is opened for a checkout
fresh-single :
    (size lost : ℕ) (s : Database) (x : ℕ)
    → IsTidy size lost s
    → copies x (s.opened ∷ s.handles) ≤ 1
fresh-single size lost s x k = ground (arith, k.single x, k.old x)

fresh-old :
    (size lost : ℕ) (s : Database) (x : ℕ)
    → IsTidy size lost s
    → s.opened + 1 ≤ x
    → copies x (s.opened ∷ s.handles) ≡ 0
fresh-old size lost s x k later = ground (arith, k.old x (omega (arith, later)), later)

-- a checkout that fails although there was a slot
abbrev pub lost_slot : Bool → Bool → ℕ
lost_slot slot ok = if ok then 0 else if slot then 1 else 0

checkout-IsTidy :
    (size lost : ℕ) (opens slot : Bool) (pool : List ℕ) (s : Database)
    → IsTidy size lost s
    → ltb 0 s.reader_slots ≡ slot
    → s.reader_pool ≡ pool
    → IsTidy size
        (lost + lost_slot slot (checkout opens slot pool s).1)
        (checkout opens slot pool s).0
unfolding checkout checkout_reader
checkout-IsTidy size lost opens' true (h ∷ pool) s k sl p = record {
  same_size = k.same_size;
  slots = ground (arith, k.slots, sl);
  pool = omega (arith, k.pool, ap length p);
  drained = omega (arith, k.drained, ap length p);
  all_known = λ x. omega (arith, k.all_known x, ap (copies x) p);
  single = k.single;
  old = k.old;
}
checkout-IsTidy size lost true true [] s k sl p = record {
  same_size = k.same_size;
  slots = ground (arith, k.slots, sl);
  pool = ground (arith, k.slots, sl, ap length p);
  drained = k.drained;
  all_known = λ x. omega (arith, k.all_known x, ap (copies x) p);
  single = λ x. fresh-single size lost s x k;
  old = λ x later. fresh-old size lost s x k later;
}
checkout-IsTidy size lost false true [] s k sl p = record {
  same_size = k.same_size;
  slots = ground (arith, k.slots, sl);
  pool = ground (arith, k.slots, sl, ap length p);
  drained = k.drained;
  all_known = k.all_known;
  single = k.single;
  old = k.old;
}
checkout-IsTidy size lost true false pool s k sl p = record {
  same_size = k.same_size;
  slots = omega (arith, k.slots);
  pool = omega (arith, k.pool);
  drained = k.drained;
  all_known = λ x. omega (arith, k.all_known x);
  single = λ x. fresh-single size lost s x k;
  old = λ x later. fresh-old size lost s x k later;
}
checkout-IsTidy size lost false false pool s k sl p = record {
  same_size = k.same_size;
  slots = omega (arith, k.slots);
  pool = omega (arith, k.pool);
  drained = k.drained;
  all_known = k.all_known;
  single = k.single;
  old = k.old;
}

pub connect-IsTidy :
    (size lost : ℕ) (opens : Bool) (s : Database)
    → IsTidy size lost s
    → IsTidy size (lost + lost_slot (ltb 0 s.reader_slots) (connect opens s).1) (connect opens s).0
unfolding connect
connect-IsTidy size lost opens s k =
    checkout-IsTidy size lost opens (ltb 0 s.reader_slots) s.reader_pool s k refl refl

pub disconnect-IsTidy :
    (size lost : ℕ) (clean : Bool) (c : Checkout) (others : List Checkout) (s : Database)
    → IsTidy size lost s
    → Rest s.out c others
    → IsTidy size lost (disconnect clean c (record s { out = others }))
unfolding disconnect checkin_reader
disconnect-IsTidy size lost clean c others s k rest =
    cases c.pooled
      (not c.pooled || s.disposed || not clean || leb s.reader_pool_size (length s.reader_pool))
      refl refl
  where
    closes :
        (slots : ℕ)
        → slots + weight has_slot others + lost ≡ size
        → IsTidy size lost
            (record s { out = others; reader_slots = slots; handles = closed c.handle s.handles })
    closes slots balance = record {
      same_size = k.same_size;
      slots = balance;
      pool = omega (arith, k.pool, rest.weighs has_slot);
      drained = k.drained;
      all_known = λ x. ground (
        arith,
        k.all_known x,
        k.single x,
        rest.weighs (is_handle x),
        copies-closed c.handle x s.handles,
      );
      single = λ x. ground (arith, k.single x, copies-closed c.handle x s.handles);
      old = λ x later. ground (arith, k.old x later, copies-closed c.handle x s.handles);
    }

    cases :
        (pooled drop : Bool)
        → c.pooled ≡ pooled
        → (not c.pooled || s.disposed || not clean || leb s.reader_pool_size (length s.reader_pool))
          ≡ drop
        → IsTidy size lost (
            let s' =
              (if drop
                then record s { out = others; handles = closed c.handle s.handles }
                else record s { out = others; reader_pool = c.handle ∷ s.reader_pool }) in
            if pooled then record s' { reader_slots = s'.reader_slots + 1 } else s')
    cases true true e f =
        closes (s.reader_slots + 1) (ground (arith, k.slots, rest.weighs has_slot, e))
    cases false true e f = closes s.reader_slots (ground (arith, k.slots, rest.weighs has_slot, e))
    cases true false e f = record {
      same_size = k.same_size;
      slots = ground (arith, k.slots, rest.weighs has_slot, e);
      pool = ground (arith, k.pool, rest.weighs has_slot, e);
      drained = ground (arith, k.same_size, f);
      all_known = λ x. omega (arith, k.all_known x, rest.weighs (is_handle x));
      single = k.single;
      old = k.old;
    }
    cases false false e f = absurd (ground (arith, e, f))

-- what `get_writer` gives
abbrev pub Got : ℕ → ℕ → Option (Database × ℕ) → Type 0
Got size lost none = Unit
Got size lost (some (s, h)) = IsTidy size lost s × (s.writer_conn ≡ some h)

get_writer-Got :
    (size lost : ℕ) (opens : Bool) (s : Database)
    → IsTidy size lost s
    → Got size lost (get_writer opens s)
unfolding get_writer
get_writer-Got size lost opens s k = cases opens s.writer_conn refl
  where
    cases :
        (opens' : Bool) (o : Option ℕ)
        → s.writer_conn ≡ o
        → Got size lost (elim o as (λ _. Option (Database × ℕ)) [
          | some h ↦ some (s, h)
          | none ↦
              if opens'
              then some (record (open_handle s) { writer_conn = some s.opened }, s.opened)
              else none
        ])
    cases opens' (some h) e = (k, e)
    cases false none e = tt
    cases true none e = (
      record {
        same_size = k.same_size;
        slots = k.slots;
        pool = k.pool;
        drained = k.drained;
        all_known = λ x. omega (arith, k.all_known x, ap (is_writer x) e);
        single = λ x. fresh-single size lost s x k;
        old = λ x later. fresh-old size lost s x k later;
      },
      refl,
    )

quarantine_writer-IsTidy :
    (size lost h : ℕ) (s : Database)
    → IsTidy size lost s
    → s.writer_conn ≡ some h
    → IsTidy size lost (quarantine_writer h s)
unfolding quarantine_writer
quarantine_writer-IsTidy size lost h s k e = record {
  same_size = k.same_size;
  slots = k.slots;
  pool = k.pool;
  drained = k.drained;
  all_known = λ x.
      ground (arith, k.all_known x, k.single x, copies-closed h x s.handles, ap (is_writer x) e, e);
  single = λ x. ground (arith, k.single x, copies-closed h x s.handles);
  old = λ x later. ground (arith, k.old x later, copies-closed h x s.handles);
}

transact-IsTidy :
    (size lost : ℕ) (body : Bool) (h : ℕ) (s : Database)
    → Got size lost (some (s, h))
    → IsTidy size lost (transact body h s).0
unfolding transact
transact-IsTidy size lost true h s (k, e) = k
transact-IsTidy size lost false h s (k, e) = quarantine_writer-IsTidy size lost h s k e

begin_again-IsTidy :
    (size lost : ℕ) (a : Attempt) (s : Database)
    → IsTidy size lost s
    → IsTidy size lost (begin_again a s).0
unfolding begin_again
begin_again-IsTidy size lost a s k =
    cases (get_writer a.reopens s) a.second (get_writer-Got size lost a.reopens s k)
  where
    cases :
        (o : Option (Database × ℕ)) (second : Begun)
        → Got size lost o
        → IsTidy size lost
            (elim o as (λ _. Database × Bool) [
              | none ↦ (s, false)
              | some (s', h) ↦ elim second as (λ _. Database × Bool) [
                | started ↦ transact a.body h s'
                | dead ↦ (quarantine_writer h s', false)
                | busy ↦ (quarantine_writer h s', false)
              ]
            ]).0
    cases none second g = k
    cases (some (s', h)) started g = transact-IsTidy size lost a.body h s' g
    cases (some (s', h)) dead g = quarantine_writer-IsTidy size lost h s' g.0 g.1
    cases (some (s', h)) busy g = quarantine_writer-IsTidy size lost h s' g.0 g.1

pub begin-IsTidy :
    (size lost : ℕ) (a : Attempt) (s : Database)
    → IsTidy size lost s
    → IsTidy size lost (begin a s).0
unfolding begin
begin-IsTidy size lost a s k =
    cases (get_writer a.opens s) a.first (get_writer-Got size lost a.opens s k)
  where
    cases :
        (o : Option (Database × ℕ)) (first : Begun)
        → Got size lost o
        → IsTidy size lost
            (elim o as (λ _. Database × Bool) [
              | none ↦ (s, false)
              | some (s', h) ↦ elim first as (λ _. Database × Bool) [
                | started ↦ transact a.body h s'
                | dead ↦ begin_again a (quarantine_writer h s')
                | busy ↦ (quarantine_writer h s', false)
              ]
            ]).0
    cases none first g = k
    cases (some (s', h)) started g = transact-IsTidy size lost a.body h s' g
    cases (some (s', h)) dead g =
        begin_again-IsTidy size lost a (quarantine_writer h s')
          (quarantine_writer-IsTidy size lost h s' g.0 g.1)
    cases (some (s', h)) busy g = quarantine_writer-IsTidy size lost h s' g.0 g.1

pub checkpoint-IsTidy :
    (size lost : ℕ) (opens works : Bool) (s : Database)
    → IsTidy size lost s
    → IsTidy size lost (checkpoint opens works s).0
unfolding checkpoint
checkpoint-IsTidy size lost opens works s k =
    cases (get_writer opens s) works (get_writer-Got size lost opens s k)
  where
    cases :
        (o : Option (Database × ℕ)) (works' : Bool)
        → Got size lost o
        → IsTidy size lost
            (elim o as (λ _. Database × Bool) [
              | none ↦ (s, false)
              | some (s', h) ↦ if works' then (s', true) else (quarantine_writer h s', false)
            ]).0
    cases none works' g = k
    cases (some (s', h)) true g = g.0
    cases (some (s', h)) false g = quarantine_writer-IsTidy size lost h s' g.0 g.1

copies-drain_pool :
    (x : ℕ) (pool l : List ℕ)
    → copies x (drain_pool pool l) ≡ (if copies x pool == 0 then copies x l else 0)
unfolding drain_pool
copies-drain_pool x [] l = ground arith
copies-drain_pool x (h ∷ pool) l =
    ground (arith, copies-drain_pool x pool (closed h l), copies-closed h x l)

-- what `dispose` leaves of a handle
copies-dispose :
    (size lost x : ℕ) (s : Database)
    → IsTidy size lost s
    → copies x (dispose s).handles ≡ weight (is_handle x) s.out
unfolding dispose
copies-dispose size lost x s k = cases s.writer_conn refl
  where
    cases :
        (o : Option ℕ)
        → s.writer_conn ≡ o
        → copies x (elim o as (λ _. List ℕ) [
          | none ↦ drain_pool s.reader_pool s.handles
          | some w ↦ closed w (drain_pool s.reader_pool s.handles)
        ])
          ≡ weight (is_handle x) s.out
    cases none e = ground (
      arith,
      k.all_known x,
      k.single x,
      copies-drain_pool x s.reader_pool s.handles,
      ap (is_writer x) e,
    )
    cases (some w) e = ground (
      arith,
      k.all_known x,
      k.single x,
      copies-drain_pool x s.reader_pool s.handles,
      copies-closed w x (drain_pool s.reader_pool s.handles),
      ap (is_writer x) e,
    )

pub dispose-IsTidy :
    (size lost : ℕ) (s : Database) → IsTidy size lost s → IsTidy size lost (dispose s)
unfolding dispose
dispose-IsTidy size lost s k = record {
  same_size = k.same_size;
  slots = k.slots;
  pool = omega (arith, k.pool);
  drained = omega arith;
  all_known = λ x. omega (arith, copies-dispose size lost x s k);
  single = λ x. omega (arith, copies-dispose size lost x s k, k.all_known x, k.single x);
  old = λ x later. omega (arith, copies-dispose size lost x s k, k.all_known x, k.old x later);
}
