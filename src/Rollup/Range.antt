-- ===== src/Rollup/Range.antt =====
-- partition/rollup.py: the partitions that a pass visits.
use sqtseries.Prelude.{
  ℕ, ◌≤◌, ◌<◌, ◌≡◌, ◌∙◌, inl, inr, true, some, List, [], ◌∷◌, arith, leb, ◌==◌, Bool-cases, nat_eq,
  string_eq, keep, All,
}
use sqtseries.Prelude.Sorted.{has, has-sorted, has-keep, sorted-All}
use sqtseries.Prelude.{keep-All}
use sqtseries.Dict.{lookup}
use sqtseries.Schema.{month_partition_key}
use sqtseries.Schema.Months.{month_partition_key_bounds}
use sqtseries.Rollup.{Row, Db, names, meets, partitions_for_range}

module _ {V : Type 0} where
  abbrev pub Exists : List (ℕ × List (Row V)) → ℕ → Type 0
  Exists parts m = (rows : List (Row V)) × (lookup m parts ≡ some rows)

  Exists-more :
      (j : ℕ) (first : List (Row V)) (parts : List (ℕ × List (Row V))) (m : ℕ)
      → Exists parts m
      → Exists ((j, first) ∷ parts) m
  unfolding lookup
  Exists-more j first parts m (rows, found) = elim (Bool-cases (j == m)) [
    | inl here ↦ (first, rw here)
    | inr later ↦ (rows, rw later found)
  ]

  Exists-All :
      (j : ℕ) (first : List (Row V)) (parts : List (ℕ × List (Row V))) (ms : List ℕ)
      → All (Exists parts) ms
      → All (Exists ((j, first) ∷ parts)) ms
  Exists-All j first parts [] h = tt
  Exists-All j first parts (m ∷ ms) h =
      (Exists-more j first parts m h.0, Exists-All j first parts ms h.1)

  names-Exists : (parts : List (ℕ × List (Row V))) → All (Exists parts) (names parts)
  unfolding lookup
  names-Exists [] = tt
  names-Exists ((j, first) ∷ parts) =
      ((first, ground arith), Exists-All j first parts (names parts) (names-Exists parts))

  -- Every partition that a pass visits is there.
  pub range-Exists :
      (db : Db V) (w c : ℕ) → All (Exists db.partitions) (partitions_for_range db w c)
  unfolding partitions_for_range
  range-Exists db w c =
      sorted-All leb (Exists db.partitions) (keep (meets w c) (names db.partitions)) (
        keep-All (Exists db.partitions) (meets w c) (names db.partitions)
          (names-Exists db.partitions))

  has-names :
      (m : ℕ) (parts : List (ℕ × List (Row V))) (rows : List (Row V))
      → lookup m parts ≡ some rows
      → has m (names parts) ≡ true
  unfolding lookup
  has-names m [] rows h = cc
  has-names m ((j, first) ∷ parts) rows h = ground (arith, has-names m parts rows)

  -- The partition of an hour in `[w, c)`, if it is there, is visited.
  pub range_complete :
      (db : Db V) (w c h : ℕ) (rows : List (Row V))
      → w ≤ h
      → h < c
      → lookup (month_partition_key h) db.partitions ≡ some rows
      → has (month_partition_key h) (partitions_for_range db w c) ≡ true
  unfolding partitions_for_range
  range_complete db w c h rows after before found =
      let m = month_partition_key h in
      let (low, high) = month_partition_key_bounds h in
      has-sorted leb m (keep (meets w c) (names db.partitions))
      ∙ has-keep (meets w c) m (names db.partitions)
      ∙ ground (arith, has-names m db.partitions rows found, low, high)
