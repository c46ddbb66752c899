-- ===== src/Tests/Ratelimit.antt =====
-- Two clients at a limit of two requests in a minute.
use sqtseries.Prelude.{ℕ, min, ◌≡◌, refl, List, [], ◌∷◌, arith, nat_eq, string_eq}
use sqtseries.Ratelimit.{Limiter, init, window_of, admit}
use sqtseries.Ratelimit.Limits.{Request, asked, passed, left, passed-asked}

abbrev fresh : Limiter ℕ
fresh = init 2

abbrev requests : List (Request ℕ)
requests =
    record { client = 7; time = 600 }
    ∷ record { client = 8; time = 601 }
    ∷ record { client = 7; time = 602 }
    ∷ record { client = 7; time = 603 }
    ∷ []

passed-asked_example : passed 7 requests fresh ≡ min (asked 7 requests) (left 7 10 fresh)
unfolding init window_of
passed-asked_example =
    passed-asked 7 10 requests fresh (refl, (refl, (refl, (refl, tt)))) (omega arith) (omega arith)

two_pass : passed 7 requests fresh ≡ 2
unfolding admit init
two_pass = refl
