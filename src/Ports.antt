-- ===== src/Ports.antt =====
-- ports.py: the search for a free port. Whether the system can bind a port is a parameter, which an
-- allocation reads as it stands at that time.
pub mod First
use sqtseries.Prelude.{
  ℕ, zero, suc, ◌+◌, ◌-◌, ◌*◌, ◌/◌, ◌%◌, ◌^◌, ◌≤◌, ◌<◌, min, max, String, ◌≡◌, refl, sym, ap, ◌∙◌,
  ◌≢◌, ◌↔◌, ◌⊎◌, inl, inr, Bool, true, false, ◌&&◌, ◌||◌, not, Option, none, some, List, [], ◌∷◌,
  ◌++◌, map, arith, ltb, leb, ◌==◌, if◌then◌else◌, ltb→lt, lt→ltb, leb→le, ==_iff, Bool-cases,
  Option-cases, Eq, eq_of_discrete, string_discrete, pair_eq, option_eq, nat_eq, string_eq, length,
  take, drop, keep, length-append, length-take, length-drop, length-keep-le, All, All-append,
}
use sqtseries.Prelude.Sorted.{has}
use sqtseries.Agg.{range}

pub record Allocator : Type 0 where
  pub start : ℕ
  pub end : ℕ
  pub offset : ℕ
  pub reserved : List ℕ
  pub used : List ℕ

-- the port, or the error that is raised
pub data Answer : Type 0 where
  port : ℕ → Answer
  in_use exhausted : Answer

abbrev pub first_of : (ℕ → Bool) → List ℕ → Option ℕ
first_of test [] = none
first_of test (n ∷ l) = if test n then some n else first_of test l

module _ (is_available : ℕ → Bool) where
  -- what the loop does not pass over
  abbrev pub eligible : Allocator → ℕ → Bool
  eligible ports candidate =
      not (has candidate ports.used || has candidate ports.reserved) && is_available candidate

  unfoldable pub alloc : Bool → Allocator → Allocator × Answer
  unfolding range
  alloc false ports =
      let base = ports.start + ports.offset in
      if is_available base
      then (record ports { used = base ∷ ports.used }, port base)
      else (ports, in_use)
  alloc true ports =
      let base = ports.start + ports.offset in
      elim (first_of (eligible ports) (range base (ports.end + 1 + ports.offset - base))) [
        | none ↦ (ports, exhausted)
        | some candidate ↦ (record ports { used = candidate ∷ ports.used }, port candidate)
      ]

unfoldable pub release : ℕ → Allocator → Allocator
release n ports = record ports { used = keep (λ p. not (p == n)) ports.used }
