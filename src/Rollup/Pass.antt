-- ===== src/Rollup/Pass.antt =====
-- partition/rollup.py: one pass over a partition, hour by hour.
use sqtseries.Dict.{lookup-All}
use sqtseries.Prelude.{
  ℕ, ◌≤◌, ◌<◌, ◌≡◌, refl, ap, ◌∙◌, ◌≢◌, inl, inr, Bool, false, ◌&&◌, none, some, List, [], ◌∷◌, map,
  arith, ltb, leb, ◌==◌, if◌then◌else◌, Bool-cases, nat_eq, string_eq, keep, All,
}
use sqtseries.Dict.{lookup, assign, IsDict, lookup-assign, assign-IsDict}
use sqtseries.Schema.{month_partition_key}
use sqtseries.Schema.Months.{month_of_hour}
use sqtseries.Partials.{Values, Partial, partials}
use sqtseries.Partials.Gather.{
  gather, gather-map, gather-keep, gather-all, gather-if, gather-append, join-none,
}
use sqtseries.Partials.Tables.{lookup-merge, merge-IsDict, at_key}
use sqtseries.Rollup.{
  Row, Db, HourKey, hour_key_eq, hour_of, within, hour_part, select_groups, replace_all, roll_rows,
}
use sqtseries.Rollup.Sound.{rows_in, at_hour, IsPlaced, raw}

lookup-replace_all :
    {V : Type 0} (k : HourKey) (table groups : List (HourKey × Partial V))
    → IsDict groups
    → lookup k (replace_all table groups)
      ≡ elim (lookup k groups) [ none ↦ lookup k table | some p ↦ some p ]
unfolding replace_all lookup
lookup-replace_all k table [] u = refl
lookup-replace_all k table ((j, p) ∷ groups) u = ground (
  arith,
  lookup-replace_all k (assign j p table) groups u.1,
  lookup-assign j k p table,
  hour_key_eq.beq_iff j k,
)

pub replace_all-IsDict :
    {V : Type 0} (table groups : List (HourKey × Partial V))
    → IsDict table
    → IsDict (replace_all table groups)
unfolding replace_all
replace_all-IsDict table [] u = u
replace_all-IsDict table ((j, p) ∷ groups) u =
    replace_all-IsDict (assign j p table) groups (assign-IsDict j p table u)

point_in : (w c h ts : ℕ) → hour_of c ≡ c → w ≤ h → h < c → hour_of ts ≡ h → (w ≤ ts) × (ts < c)
point_in w c h ts a p q e = omega arith

point_out : (w c h ts : ℕ) → hour_of w ≡ w → w ≤ ts → ts < c → hour_of ts ≡ h → (w ≤ h) × (h < c)
point_out w c h ts a p q e = omega arith

-- The hours that a pass covers.
abbrev pub covers : ℕ → ℕ → ℕ → Bool
covers w c h = leb w h && ltb h c

module _ {V : Type 0} (A : Values V) where
  lookup-select_groups :
      (w c s h : ℕ) (rows : List (Row V))
      → lookup (s, h) (select_groups A w c rows)
        ≡ gather (partials A) (λ r. if within A w c r then at_hour s h r else none) rows
  unfolding select_groups lookup
  lookup-select_groups w c s h rows =
      lookup-merge (partials A) (s, h) [] (map (hour_part A) (keep (within A w c) rows))
      ∙ gather-map (partials A) (at_key (partials A) (s, h)) (hour_part A)
          (keep (within A w c) rows)
      ∙ gather-keep (partials A) (at_hour s h) (within A w c) rows

  select_groups-IsDict : (w c : ℕ) (rows : List (Row V)) → IsDict (select_groups A w c rows)
  unfolding select_groups
  select_groups-IsDict w c rows =
      merge-IsDict (partials A) [] (map (hour_part A) (keep (within A w c) rows)) tt

  module _ (w c s h : ℕ) (w_on_hour : hour_of w ≡ w) (c_on_hour : hour_of c ≡ c) where
    covered_row :
        (r : Row V)
        → (if within A w c r then at_hour s h r else none)
          ≡ (if covers w c h then at_hour s h r else none)
    covered_row r = ground (arith, point_in w c h r.ts c_on_hour, point_out w c h r.ts w_on_hour)

    groups_covered :
        (rows : List (Row V))
        → lookup (s, h) (select_groups A w c rows)
          ≡ (if covers w c h then gather (partials A) (at_hour s h) rows else none)
    groups_covered rows =
        lookup-select_groups w c s h rows
        ∙ gather-all (partials A) _ (λ r. if covers w c h then at_hour s h r else none) rows
            covered_row
        ∙ gather-if (partials A) (covers w c h) (at_hour s h) rows

  -- the rows of a month are the only ones at its hours
  away_row :
      (s h m : ℕ) (r : Row V)
      → month_partition_key r.ts ≡ m
      → month_partition_key h ≢ m
      → at_hour s h r ≡ none
  away_row s h m r p q = ground (arith, month_of_hour r.ts, same_month h (hour_of r.ts))
    where
      same_month : (a b : ℕ) → a ≡ b → month_partition_key a ≡ month_partition_key b
      same_month a b e = ap month_partition_key e

  pub away :
      (s h m : ℕ) (rows : List (Row V))
      → All (λ r. month_partition_key r.ts ≡ m) rows
      → month_partition_key h ≢ m
      → gather (partials A) (at_hour s h) rows ≡ none
  away s h m [] p q = refl
  away s h m (r ∷ rows) p q = rw (away_row s h m r p.0 q) (away s h m rows p.1 q)

  pub raw_elsewhere :
      (s h : ℕ) (parts : List (ℕ × List (Row V)))
      → All IsPlaced parts
      → lookup (month_partition_key h) parts ≡ none
      → raw A parts s h ≡ none
  unfolding lookup
  raw_elsewhere s h [] p q = refl
  raw_elsewhere s h ((j, rows) ∷ parts) p q =
      gather-append (partials A) (at_hour s h) rows (rows_in parts)
      ∙ ground (arith, away s h j rows p.0, raw_elsewhere s h parts p.1)

  -- the aggregate over an hour comes from the partition of the hour
  raw_month :
      (s h : ℕ) (rows : List (Row V)) (parts : List (ℕ × List (Row V)))
      → IsDict parts
      → All IsPlaced parts
      → lookup (month_partition_key h) parts ≡ some rows
      → raw A parts s h ≡ gather (partials A) (at_hour s h) rows
  unfolding lookup
  raw_month s h rows [] u p q = cc
  raw_month s h rows ((j, first) ∷ parts) u p q =
      gather-append (partials A) (at_hour s h) first (rows_in parts)
      ∙ elim (Bool-cases (j == month_partition_key h)) [
        | inl here ↦ ground (
          arith,
          raw_elsewhere s h parts p.1,
          join-none (partials A) (gather (partials A) (at_hour s h) first),
        )
        | inr later ↦ ground (arith, away s h j first p.0, raw_month s h rows parts u.1 p.1)
      ]

  -- After a pass over the partition of month `m`, from the hour `w` to the hour `c`, an entry of the
  -- month between them is the aggregate of the measurements, and any other entry is as before.
  pub lookup-roll_rows :
      (w c m s h : ℕ) (rows : List (Row V)) (db : Db V)
      → hour_of w ≡ w
      → hour_of c ≡ c
      → IsDict db.partitions
      → All IsPlaced db.partitions
      → lookup m db.partitions ≡ some rows
      → (raw A db.partitions s h ≡ none → lookup (s, h) db.rollup ≡ none)
      → lookup (s, h) (roll_rows A false w c rows db).0.rollup ≡ (
          if covers w c h && (month_partition_key h == m)
          then raw A db.partitions s h
          else lookup (s, h) db.rollup)
  unfolding roll_rows
  lookup-roll_rows w c m s h rows db aw ac u placed found backed =
      let groups = select_groups A w c rows in
      let replaced = lookup-replace_all (s, h) db.rollup groups (select_groups-IsDict w c rows) in
      let grouped = groups_covered w c s h aw ac rows in
      let placed_rows = lookup-All IsPlaced m rows db.partitions placed found in
      elim (Bool-cases (month_partition_key h == m)) [
        | inl same ↦
            ground (arith, replaced, grouped, backed, raw_month s h rows db.partitions u placed)
        | inr other ↦ ground (arith, replaced, grouped, away s h m rows placed_rows)
      ]
