-- ===== src/Retention/Expired.antt =====
-- partition/retention.py: what a pass of the policy removes.
use sqtseries.Prelude.{
  ℕ, ◌+◌, ◌-◌, ◌≤◌, ◌≡◌, refl, ap, ◌∙◌, inl, inr, true, false, ◌&&◌, not, none, List, [], ◌∷◌, map,
  arith, leb, ◌==◌, if◌then◌else◌, Bool-cases, nat_eq, string_eq,
}
use sqtseries.Prelude.Sorted.{has, has-sorted, has-keep}
use sqtseries.Dict.{lookup, lookup-without}
use sqtseries.Schema.{day_ns, month_partition_key}
use sqtseries.Schema.Months.{month_partition_key_bounds}
use sqtseries.Partials.{Values}
use sqtseries.Rollup.{Db, names}
use sqtseries.Rollup.Writes.{drop_partition}
use sqtseries.Rollup.Sound.{IsSound}
use sqtseries.Rollup.Retire.{drop_partition-IsSound}
use sqtseries.Retention.{
  last_day_of_month, list_partitions, partitions_to_retain, drop_expired, run,
}

has_at : (m n : ℕ) (l : List ℕ) → (n == m) ≡ true → has n l ≡ has m l
has_at m n l e = ap (λ k. has k l) (ground (arith, e))

lookup_missing :
    {R : Type 0} (m : ℕ) (parts : List (ℕ × R))
    → has m (map (λ p. p.0) parts) ≡ false
    → lookup m parts ≡ none
unfolding lookup
lookup_missing m [] h = refl
lookup_missing m ((n, r) ∷ parts) h = ground (arith, lookup_missing m parts)

module _ {V : Type 0} where
  lookup-drop_expired :
      (kept ms : List ℕ) (db : Db V) (m : ℕ)
      → lookup m (drop_expired kept ms db).0.partitions
        ≡ (if has m ms && not (has m kept) then none else lookup m db.partitions)
  unfolding drop_expired drop_partition
  lookup-drop_expired kept [] db m = refl
  lookup-drop_expired kept (n ∷ ms) db m = elim (Bool-cases (has n kept)) [
    | inl stays ↦ rw stays (ground (arith, lookup-drop_expired kept ms db m, has_at m n kept))
    | inr goes ↦ rw goes (
        lookup-drop_expired kept ms (drop_partition n db) m
        ∙ ground (arith, lookup-without n m db.partitions, has_at m n kept))
  ]

  lookup-run :
      (now ttl : ℕ) (db : Db V) (m : ℕ)
      → lookup m (run now ttl db).0.partitions
        ≡ (if leb (now - ttl) (last_day_of_month m) then lookup m db.partitions else none)
  unfolding run partitions_to_retain list_partitions
  lookup-run now ttl db m =
      lookup-drop_expired (partitions_to_retain now ttl db) (list_partitions db) db m
      ∙ ground (
        arith,
        has-keep (λ n. leb (now - ttl) (last_day_of_month n)) m (list_partitions db),
        has-sorted leb m (names db.partitions),
        lookup_missing m db.partitions,
      )

  drop_expired-IsSound :
      (A : Values V) (kept ms : List ℕ) (db : Db V)
      → IsSound A db
      → IsSound A (drop_expired kept ms db).0
  unfolding drop_expired
  drop_expired-IsSound A kept [] db sound = sound
  drop_expired-IsSound A kept (n ∷ ms) db sound = elim (Bool-cases (has n kept)) [
    | inl stays ↦ rw stays (drop_expired-IsSound A kept ms db sound)
    | inr goes ↦
        rw goes (
          drop_expired-IsSound A kept ms (drop_partition n db)
            (drop_partition-IsSound A n db sound))
  ]

  -- A retention pass on sound tables leaves sound tables, so no rolled hour outlives its
  -- measurements, and removes exactly the months whose last day begins before the horizon
  -- `now - ttl`; the other months keep their rows.
  pub run_exact :
      (A : Values V) (now ttl : ℕ) (db : Db V)
      → IsSound A db
      → IsSound A (run now ttl db).0
        × ((m : ℕ)
            → lookup m (run now ttl db).0.partitions
              ≡ (if leb (now - ttl) (last_day_of_month m) then lookup m db.partitions else none))
  unfolding run
  run_exact A now ttl db sound = (drop_expired-IsSound A _ _ db sound, λ m. lookup-run now ttl db m)

  -- Where a timestamp is at least one day younger than the horizon `now - ttl`, a retention pass
  -- leaves the rows of its month alone.
  pub recent_kept :
      (now ttl ts : ℕ) (db : Db V)
      → now - ttl + day_ns ≤ ts
      → lookup (month_partition_key ts) (run now ttl db).0.partitions
        ≡ lookup (month_partition_key ts) db.partitions
  unfolding last_day_of_month
  recent_kept now ttl ts db young =
      let (after, before) = month_partition_key_bounds ts in
      let kept : leb (now - ttl) (last_day_of_month (month_partition_key ts)) ≡ true =
        ground (arith, before, young) in
      lookup-run now ttl db (month_partition_key ts) ∙ rw kept refl
