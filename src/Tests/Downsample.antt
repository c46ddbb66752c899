-- ===== src/Tests/Downsample.antt =====
-- The four samples of Tests/Rollup.antt in buckets of two hours.
use sqtseries.Prelude.{◌*◌, ◌≡◌, refl, none, some, [], ◌∷◌, nat_eq}
use sqtseries.Prelude.Sorted.{sorted}
use sqtseries.Dict.{lookup, assign}
use sqtseries.Schema.{hour_ns, month_start_ns}
use sqtseries.Partials.{partials}
use sqtseries.Partials.Gather.{gather}
use sqtseries.Scan.{asc, query_time_range}
use sqtseries.Query.Downsample.{downsample_sqlite}
use sqtseries.Query.Downsample.Exact.{in_bucket, downsample_sqlite_exact}
use sqtseries.Tests.Numbers.{numbers}
use sqtseries.Tests.Rollup.{stored}

second_bucket :
    lookup 1 (downsample_sqlite numbers (1 ∷ []) (some 0) none (2 * hour_ns) stored)
    ≡ some (record { count = 2; sum = 13; lowest = 5; highest = 8 })
unfolding downsample_sqlite partials lookup month_start_ns sorted assign
second_bucket = refl

downsample_sqlite_exact_example :
    lookup 1 (downsample_sqlite numbers (1 ∷ []) (some 0) none (2 * hour_ns) stored)
    ≡ gather
        (partials numbers)
        (in_bucket numbers (2 * hour_ns) 1)
        (query_time_range (1 ∷ []) (some 0) none none asc stored)
downsample_sqlite_exact_example =
    downsample_sqlite_exact numbers (2 * hour_ns) 1 1 [] (some 0) none stored
