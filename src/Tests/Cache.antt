-- ===== src/Tests/Cache.antt =====
-- The query result cache at small bounds.
use sqtseries.Dict.{move_to_end}
use sqtseries.Prelude.{ℕ, ◌≡◌, refl, List, [], ◌∷◌, ◌++◌, map, arith, nat_eq, string_eq}
use sqtseries.Dict.{lookup, without}
use sqtseries.QueryCache.Keys.{Result, object, rows, other, row_count}
use sqtseries.QueryCache.{Cache, init, get, put, evict}
use sqtseries.QueryCache.Bounds.{IsValid, Call, get_call, put_call, run, run-IsValid}
use sqtseries.QueryCache.Eviction.{IsTrimmed, put-IsTrimmed}

abbrev small : ℕ → Result ℕ
small n = object (rows (n ∷ n ∷ [])) other

abbrev calls : List (Call ℕ ℕ)
calls =
    put_call 0 1 (small 10) ∷ put_call 1 2 (small 20) ∷ get_call 2 1 ∷ put_call 3 3 (small 30) ∷ []

abbrev start : Cache ℕ ℕ
start = run calls (init 2 5 100)

run-IsValid_example : IsValid (run calls (init 2 5 100))
run-IsValid_example = run-IsValid calls 2 5 100

-- the key that was used last stays, the other one goes
kept_keys : map (λ e. e.0) start.entries ≡ 1 ∷ 3 ∷ []
unfolding run get put init lookup without evict row_count move_to_end
kept_keys = refl

start_limits : (start.maxsize ≡ 2) × (start.max_weight ≡ 100) × (start.ttl ≡ 5)
unfolding run get put init lookup without evict row_count move_to_end
start_limits = (refl, refl, refl)

put-IsTrimmed_example :
    IsTrimmed start.maxsize start.max_weight
      (without 4 start.entries
        ++ (4, record { stamp = 4; result = small 40; rows_held = row_count (small 40) }) ∷ [])
      (put 4 4 (small 40) start).entries
unfolding run get put init lookup without evict row_count move_to_end
put-IsTrimmed_example =
    put-IsTrimmed 4 4 (small 40) start run-IsValid_example (omega arith) (omega arith)
