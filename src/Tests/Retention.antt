-- ===== src/Tests/Retention.antt =====
-- A retention pass whose horizon lies inside the last day of January 1970.
use sqtseries.Rollup.Writes.{drop_partition}
use sqtseries.Prelude.Sorted.{sorted}
use sqtseries.Retention.{drop_expired}
use sqtseries.Prelude.{
  ℕ, ◌+◌, ◌-◌, ◌*◌, ◌≡◌, refl, none, [], ◌∷◌, arith, leb, if◌then◌else◌, nat_eq, string_eq,
}
use sqtseries.Tests.Numbers.{numbers}
use sqtseries.Tests.Rollup.{stored, stored-IsSound}
use sqtseries.Dict.{lookup}
use sqtseries.Schema.{day_ns, hour_ns, month_partition_key, month_start_ns}
use sqtseries.Rollup.{Db}
use sqtseries.Rollup.Sound.{IsSound}
use sqtseries.Retention.{run, last_day_of_month, list_partitions, partitions_to_retain}
use sqtseries.Retention.Expired.{run_exact, recent_kept}

run_exact_example :
    IsSound numbers (run (40 * day_ns) day_ns stored).0
    × ((m : ℕ)
        → lookup m (run (40 * day_ns) day_ns stored).0.partitions ≡ (
            if leb (40 * day_ns - day_ns) (last_day_of_month m)
            then lookup m stored.partitions
            else none))
run_exact_example = run_exact numbers (40 * day_ns) day_ns stored stored-IsSound

recent_kept_example :
    lookup (month_partition_key (30 * day_ns + 5)) (run (30 * day_ns) day_ns stored).0.partitions
    ≡ lookup (month_partition_key (30 * day_ns + 5)) stored.partitions
recent_kept_example = recent_kept (30 * day_ns) day_ns (30 * day_ns + 5) stored (omega arith)

-- a sample of noon of the last day of January
abbrev noon : Db ℕ
noon = record {
  partitions = (0, record { sid = 1; ts = 30 * day_ns + 12 * hour_ns; value = 3 } ∷ []) ∷ [];
  rollup = [];
  watermark = none;
}

-- It is dropped with its month when it is not yet thirty days old.
young_dropped : (run (60 * day_ns + hour_ns) (30 * day_ns) noon).0.partitions ≡ []
unfolding run last_day_of_month list_partitions partitions_to_retain month_start_ns drop_expired
    sorted drop_partition
young_dropped = refl
