-- ===== src/Prelude/Double.antt =====
-- Natural numbers as floats of 64 bits, which have 53 bits of precision: to the nearest float, and
-- from the middle to the even one.
use sqtseries.Prelude.{ℕ, zero, suc, ◌+◌, ◌*◌, ◌/◌, ◌%◌, ◌^◌, ◌&&◌, ◌||◌, ltb, ◌==◌, if◌then◌else◌}

-- the distance of the floats at `n`, from `unit` on; 64 doublings are enough below 2 ^ 117
unfoldable pub unit_of : ℕ → ℕ → ℕ → ℕ
unit_of zero unit n = unit
unit_of (suc left) unit n =
    let wider = unit_of left (2 * unit) n in if ltb n (2 ^ 53 * unit) then unit else wider

unfoldable pub nearest : ℕ → ℕ → ℕ
nearest unit n =
    let below = n / unit in
    let rest = n % unit in
    if ltb (2 * rest) unit || (2 * rest == unit && below % 2 == 0)
    then below * unit
    else (below + 1) * unit

unfoldable pub to_double : ℕ → ℕ
unfolding unit_of nearest
to_double n = nearest (unit_of 64 1 n) n
