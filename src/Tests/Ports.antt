-- ===== src/Tests/Ports.antt =====
-- Three ports of which the first is taken by another program.
use sqtseries.Prelude.{
  ℕ, ◌+◌, ◌-◌, ◌≤◌, ◌≡◌, refl, ◌⊎◌, Bool, true, false, not, [], ◌∷◌, ◌==◌, nat_eq, string_eq, All,
}
use sqtseries.Agg.{range}
use sqtseries.Ports.{Allocator, port, exhausted, eligible, alloc}
use sqtseries.Ports.First.{alloc_exact}

abbrev ports : Allocator
ports = record { start = 10; end = 12; offset = 0; reserved = 11 ∷ []; used = [] }

abbrev bindable : ℕ → Bool
bindable n = not (n == 10)

alloc_exact_example :
    ((p : ℕ) × (alloc bindable true ports ≡ (record ports { used = p ∷ ports.used }, port p))
      × (ports.start + ports.offset ≤ p)
      × (p ≤ ports.end + ports.offset)
      × (eligible bindable ports p ≡ true)
      × All
          (λ q. eligible bindable ports q ≡ false)
          (range (ports.start + ports.offset) (p - (ports.start + ports.offset))))
    ⊎ ((alloc bindable true ports ≡ (ports, exhausted))
        × All
            (λ q. eligible bindable ports q ≡ false)
            (range
              (ports.start + ports.offset)
              (ports.end + 1 + ports.offset - (ports.start + ports.offset))))
alloc_exact_example = alloc_exact bindable ports

twelve : (alloc bindable true ports).1 ≡ port 12
unfolding alloc
twelve = refl
