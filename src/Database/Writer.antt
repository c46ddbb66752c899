-- ===== src/Database/Writer.antt =====
-- engine/db.py: the writer after a transaction.
use sqtseries.Prelude.{
  ℕ, ◌≡◌, refl, ap, Bool, true, false, ◌&&◌, ◌||◌, Option, none, some, arith, if◌then◌else◌, nat_eq,
  string_eq,
}
use mathlib.Core.Path.{subst}
use sqtseries.Database.{
  Database, open_handle, get_writer, quarantine_writer, Begun, started, dead, busy, Attempt,
  transact, begin_again, begin,
}

abbrev pub is_some : Option ℕ → Bool
is_some none = false
is_some (some h) = true

abbrev pub is_started : Begun → Bool
is_started started = true
is_started _ = false

abbrev pub is_dead : Begun → Bool
is_dead dead = true
is_dead _ = false

-- what a transaction asks for: a handle, on which it starts, or which is found dead and replaced by
-- one on which it starts, and a body that does not raise
abbrev pub can_commit : Attempt → Database → Bool
can_commit a s =
    (is_some s.writer_conn || a.opens)
    && (is_started a.first || (is_dead a.first && (a.reopens && is_started a.second)))
    && a.body

-- the state of the writer agrees with the result
abbrev pub Agrees : Bool → Database × Bool → Type 0
Agrees ok (s, committed) = (committed ≡ ok) × (is_some s.writer_conn ≡ ok)

-- whether `get_writer` gives a handle, which is then the writer
abbrev View : Bool → Option (Database × ℕ) → Type 0
View ok none = ok ≡ false
View ok (some (s, h)) = (ok ≡ true) × (s.writer_conn ≡ some h)

get_writer-View :
    (opens : Bool) (s : Database) → View (is_some s.writer_conn || opens) (get_writer opens s)
unfolding get_writer
get_writer-View opens s = cases opens s.writer_conn refl
  where
    cases :
        (opens' : Bool) (o : Option ℕ)
        → s.writer_conn ≡ o
        → View (is_some o || opens') (elim o as (λ _. Option (Database × ℕ)) [
          | some h ↦ some (s, h)
          | none ↦
              if opens'
              then some (record (open_handle s) { writer_conn = some s.opened }, s.opened)
              else none
        ])
    cases opens' (some h) e = (refl, e)
    cases true none e = (refl, refl)
    cases false none e = refl

quarantined :
    (h : ℕ) (s : Database) → s.writer_conn ≡ some h → (quarantine_writer h s).writer_conn ≡ none
unfolding quarantine_writer
quarantined h s e = ground (arith, e)

transact-Agrees :
    (body : Bool) (h : ℕ) (s : Database) → s.writer_conn ≡ some h → Agrees body (transact body h s)
unfolding transact
transact-Agrees true h s e = (refl, ap is_some e)
transact-Agrees false h s e = (refl, ap is_some (quarantined h s e))

begin_again-Agrees :
    (a : Attempt) (s : Database)
    → s.writer_conn ≡ none
    → Agrees (a.reopens && is_started a.second && a.body) (begin_again a s)
unfolding begin_again
begin_again-Agrees a s e = cases (get_writer a.reopens s) a.second a.reopens (
    subst (λ o. View (is_some o || a.reopens) (get_writer a.reopens s)) e
      (get_writer-View a.reopens s))
  where
    cases :
        (o : Option (Database × ℕ)) (second : Begun) (ok : Bool)
        → View ok o
        → Agrees (ok && is_started second && a.body) (elim o as (λ _. Database × Bool) [
          | none ↦ (s, false)
          | some (s', h) ↦ elim second as (λ _. Database × Bool) [
            | started ↦ transact a.body h s'
            | dead ↦ (quarantine_writer h s', false)
            | busy ↦ (quarantine_writer h s', false)
          ]
        ])
    cases none second true v = absurd (ground (arith, v))
    cases none second false v = (refl, ap is_some e)
    cases (some (s', h)) second false v = absurd (ground (arith, v.0))
    cases (some (s', h)) started true v = transact-Agrees a.body h s' v.1
    cases (some (s', h)) dead true v = (refl, ap is_some (quarantined h s' v.1))
    cases (some (s', h)) busy true v = (refl, ap is_some (quarantined h s' v.1))

-- A transaction commits exactly when there is a handle or one can be opened, the transaction starts
-- on it, or starts on a fresh one after the first was found dead, and its body does not raise. After
-- it there is a writer exactly when it has committed.
pub begin_exact : (a : Attempt) (s : Database) → Agrees (can_commit a s) (begin a s)
unfolding begin
begin_exact a s =
    cases (get_writer a.opens s) a.first (is_some s.writer_conn || a.opens) refl
      (get_writer-View a.opens s)
  where
    no_writer : is_some s.writer_conn || a.opens ≡ false → is_some s.writer_conn ≡ false
    no_writer v = ground (arith, v)

    cases :
        (o : Option (Database × ℕ)) (first : Begun) (ok : Bool)
        → is_some s.writer_conn || a.opens ≡ ok
        → View ok o
        → Agrees
            (ok
              && (is_started first || (is_dead first && (a.reopens && is_started a.second)))
              && a.body)
            (elim o as (λ _. Database × Bool) [
              | none ↦ (s, false)
              | some (s', h) ↦ elim first as (λ _. Database × Bool) [
                | started ↦ transact a.body h s'
                | dead ↦ begin_again a (quarantine_writer h s')
                | busy ↦ (quarantine_writer h s', false)
              ]
            ])
    cases none first true e v = absurd (ground (arith, v))
    cases none first false e v = (refl, no_writer e)
    cases (some (s', h)) first false e v = absurd (ground (arith, v.0))
    cases (some (s', h)) started true e v = transact-Agrees a.body h s' v.1
    cases (some (s', h)) dead true e v =
        let gone = quarantined h s' v.1 in (begin_again-Agrees a (quarantine_writer h s') gone)
    cases (some (s', h)) busy true e v = (refl, ap is_some (quarantined h s' v.1))
