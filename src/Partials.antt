-- ===== src/Partials.antt =====
-- Partial aggregates (count, sum, min, max) as rollup.py and builder.py merge them. The values are
-- floats in the source; here they are any type with exact addition, minimum and maximum.
pub mod Gather
pub mod Tables
use sqtseries.Prelude.{
  ℕ, zero, suc, ◌+◌, ◌-◌, ◌*◌, ◌/◌, ◌%◌, ◌^◌, ◌≤◌, ◌<◌, min, max, String, ◌≡◌, refl, sym, ap, ◌∙◌,
  ◌≢◌, ◌↔◌, ◌⊎◌, inl, inr, Bool, true, false, ◌&&◌, ◌||◌, not, Option, none, some, List, [], ◌∷◌,
  ◌++◌, map, arith, ltb, leb, ◌==◌, if◌then◌else◌, ltb→lt, lt→ltb, leb→le, ==_iff, Bool-cases,
  Option-cases, Eq, eq_of_discrete, string_discrete, nat_eq, string_eq, length, take, drop, keep,
  length-append, length-take, length-drop, length-keep-le, All, All-append,
}
use Gather.{Combining}

-- Exact arithmetic on values. (Float addition meets `add_assoc` up to rounding only.)
pub record Values (V : Type 0) : Type 0 where
  pub add : V → V → V
  pub minimum : V → V → V
  pub maximum : V → V → V
  pub add_assoc : (a b c : V) → add (add a b) c ≡ add a (add b c)
  pub add_comm : (a b : V) → add a b ≡ add b a
  pub minimum_assoc : (a b c : V) → minimum (minimum a b) c ≡ minimum a (minimum b c)
  pub minimum_comm : (a b : V) → minimum a b ≡ minimum b a
  pub maximum_assoc : (a b c : V) → maximum (maximum a b) c ≡ maximum a (maximum b c)
  pub maximum_comm : (a b : V) → maximum a b ≡ maximum b a

pub record Partial (V : Type 0) : Type 0 where
  pub count : ℕ
  pub sum : V
  pub lowest : V
  pub highest : V

-- one sample
abbrev pub single : {V : Type 0} → V → Partial V
single v = record { count = 1; sum = v; lowest = v; highest = v }

module _ {V : Type 0} (A : Values V) where
  abbrev pub combine : Partial V → Partial V → Partial V
  combine p q = record {
    count = p.count + q.count;
    sum = A.add p.sum q.sum;
    lowest = A.minimum p.lowest q.lowest;
    highest = A.maximum p.highest q.highest;
  }

  pub combine_assoc_lem : (p q r : Partial V) → combine (combine p q) r ≡ combine p (combine q r)
  combine_assoc_lem p q r = ground (
    arith,
    A.add_assoc p.sum q.sum r.sum,
    A.minimum_assoc p.lowest q.lowest r.lowest,
    A.maximum_assoc p.highest q.highest r.highest,
  )

  pub combine_comm_lem : (p q : Partial V) → combine p q ≡ combine q p
  combine_comm_lem p q = ground (
    arith,
    A.add_comm p.sum q.sum,
    A.minimum_comm p.lowest q.lowest,
    A.maximum_comm p.highest q.highest,
  )

  unfoldable pub partials : Combining (Partial V)
  partials = record {
    combine = combine;
    combine_assoc = combine_assoc_lem;
    combine_comm = combine_comm_lem;
  }
