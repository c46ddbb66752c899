-- ===== src/Ports/First.antt =====
-- ports.py: which port an allocation finds.
use sqtseries.Prelude.{
  ℕ, zero, suc, ◌+◌, ◌-◌, ◌≤◌, ◌<◌, ◌≡◌, refl, ◌⊎◌, inl, inr, Bool, true, false, none, some, ◌∷◌,
  arith, Bool-cases, nat_eq, string_eq, All,
}
use sqtseries.Agg.{range}
use sqtseries.Ports.{Allocator, port, exhausted, first_of, eligible, alloc}

module _ (test : ℕ → Bool) where
  -- the first number of a range that passes, or none of it does
  abbrev IsFirst : ℕ → ℕ → ℕ → Type 0
  IsFirst a n p =
      (first_of test (range a n) ≡ some p)
      × (a ≤ p)
      × (p < a + n)
      × (test p ≡ true)
      × All (λ q. test q ≡ false) (range a (p - a))

  first_of-range :
      (a n : ℕ)
      → ((p : ℕ) × IsFirst a n p)
        ⊎ ((first_of test (range a n) ≡ none) × All (λ q. test q ≡ false) (range a n))
  unfolding range
  first_of-range a zero = inr (refl, tt)
  first_of-range a (suc n) = elim (Bool-cases (test a)) [
    | inl here ↦
        let nothing : a - a ≡ 0 = omega arith in
        inl (a, (rw here refl, omega arith, omega arith, here, rw nothing tt))
    | inr there ↦ elim (first_of-range (suc a) n) [
      | inl (p, (found, low, high, good, before)) ↦
          let more : p - a ≡ suc (p - suc a) = omega (arith, low) in
          inl (
            p,
            (
              rw there found,
              omega (arith, low),
              omega (arith, high),
              good,
              rw (more, range) (there, before),
            ),
          )
      | inr (none_found, none_good) ↦ inr (rw there none_found, (there, none_good))
    ]
  ]

-- With detection, an allocation gives the lowest port of the range that is neither used nor
-- reserved and can be bound, and marks it as used; it raises PortExhaustedError exactly where there
-- is none, and then changes nothing.
pub alloc_exact :
    (is_available : ℕ → Bool) (ports : Allocator)
    → ((p : ℕ) × (alloc is_available true ports ≡ (record ports { used = p ∷ ports.used }, port p))
        × (ports.start + ports.offset ≤ p)
        × (p ≤ ports.end + ports.offset)
        × (eligible is_available ports p ≡ true)
        × All
            (λ q. eligible is_available ports q ≡ false)
            (range (ports.start + ports.offset) (p - (ports.start + ports.offset))))
      ⊎ ((alloc is_available true ports ≡ (ports, exhausted))
          × All
              (λ q. eligible is_available ports q ≡ false)
              (range
                (ports.start + ports.offset)
                (ports.end + 1 + ports.offset - (ports.start + ports.offset))))
unfolding alloc
alloc_exact is_available ports =
    let base : ℕ = ports.start + ports.offset in
    let n : ℕ = ports.end + 1 + ports.offset - base in
    elim (first_of-range (eligible is_available ports) base n) [
      | inl (p, (found, low, high, good, before)) ↦
          inl (p, rw (found, alloc) refl, low, omega (arith, high, low), good, before)
      | inr (none_found, none_good) ↦ inr (rw (none_found, alloc) refl, none_good)
    ]
