-- ===== src/Rollup/Ingest.antt =====
-- engine/store.py: `insert_many` and the rewind of the watermark, as steps on sound tables.
use sqtseries.Prelude.{inr}
use mathlib.Core.Path.{subst}
use sqtseries.Prelude.{
  ℕ, ◌≤◌, ◌<◌, min, ◌≡◌, refl, sym, ap, ◌∙◌, ◌≢◌, inl, inr, Option, none, some, List, [], ◌∷◌, ◌++◌,
  arith, ◌==◌, Bool-cases, Option-cases, nat_eq, string_eq, All,
}
use sqtseries.Dict.{lookup, assign, IsDict, assign-IsDict}
use sqtseries.Schema.{month_partition_key}
use sqtseries.Partials.{Values, Partial, partials}
use sqtseries.Partials.Gather.{gather, gather-append, join, join-none, join_assoc, join_swap}
use sqtseries.Rollup.{Row, Db, hour_key_eq, hour_of, rollup_watermark}
use sqtseries.Rollup.Sound.{rows_in, at_hour, IsPlaced, raw, IsSound}
use sqtseries.Rollup.Writes.{
  rows_of, put_row, has_row, insert_rows, min_ts, rewind_watermark, insert_many,
}

pub IsPlaced-rows_of :
    {V : Type 0} (m : ℕ) (parts : List (ℕ × List (Row V)))
    → All IsPlaced parts
    → IsPlaced (m, rows_of (lookup m parts))
unfolding lookup rows_of
IsPlaced-rows_of m [] h = tt
IsPlaced-rows_of m ((j, first) ∷ parts) h = ground (arith, IsPlaced-rows_of m parts h.1)

module _ {V : Type 0} (A : Values V) where
  raw_assign :
      (g : Row V → Option (Partial V)) (m : ℕ) (r : Row V) (rows : List (Row V))
      (parts : List (ℕ × List (Row V)))
      → rows_of (lookup m parts) ≡ rows
      → gather (partials A) g (rows_in (assign m (r ∷ rows) parts))
        ≡ join (partials A) (g r) (gather (partials A) g (rows_in parts))
  unfolding lookup assign rows_of
  raw_assign g m r rows [] e = ground (arith, e)
  raw_assign g m r rows ((j, first) ∷ parts) e = elim (Bool-cases (j == m)) [
    | inl here ↦ rw here (
        ap (λ x. join (partials A) (g r) (gather (partials A) g (x ++ rows_in parts)))
          (sym (rw here at e)))
    | inr later ↦ rw later (
        gather-append (partials A) g first (rows_in (assign m (r ∷ rows) parts))
        ∙ ap (join (partials A) (gather (partials A) g first))
            (raw_assign g m r rows parts (rw later at e))
        ∙ join_swap (partials A) (gather (partials A) g first) (g r)
            (gather (partials A) g (rows_in parts))
        ∙ ap (join (partials A) (g r)) (sym (gather-append (partials A) g first (rows_in parts))))
  ]

  raw-put_row :
      (r : Row V) (parts : List (ℕ × List (Row V))) (s h : ℕ)
      → raw A (put_row r parts) s h ≡ join (partials A) (at_hour s h r) (raw A parts s h)
  unfolding put_row
  raw-put_row r parts s h = raw_assign (at_hour s h) (month_partition_key r.ts) r _ parts refl

  IsPlaced-assign :
      (m : ℕ) (rows : List (Row V)) (parts : List (ℕ × List (Row V)))
      → All IsPlaced parts
      → IsPlaced (m, rows)
      → All IsPlaced (assign m rows parts)
  unfolding assign
  IsPlaced-assign m rows [] h p = (p, tt)
  IsPlaced-assign m rows ((j, first) ∷ parts) h p =
      ground (arith, IsPlaced-assign m rows parts h.1 p)

  -- What an accepted batch leaves in the partitions.
  record IsInserted (rows : List (Row V)) (parts parts' : List (ℕ × List (Row V))) : Type 0 where
    months : IsDict parts'
    placed : All IsPlaced parts'
    added :
        (s h : ℕ)
        → raw A parts' s h
          ≡ join (partials A) (gather (partials A) (at_hour s h) rows) (raw A parts s h)

  put_row-Inserted :
      (r : Row V) (parts : List (ℕ × List (Row V)))
      → IsDict parts
      → All IsPlaced parts
      → IsInserted (r ∷ []) parts (put_row r parts)
  unfolding put_row
  put_row-Inserted r parts u p =
      let m = month_partition_key r.ts in
      record {
        months = assign-IsDict m (r ∷ rows_of (lookup m parts)) parts u;
        placed =
            IsPlaced-assign m (r ∷ rows_of (lookup m parts)) parts p
              (refl, IsPlaced-rows_of m parts p);
        added =
            λ s h. ground (arith, raw-put_row r parts s h, join-none (partials A) (at_hour s h r));
      }

  insert_rows-Inserted :
      (rows : List (Row V)) (parts parts' : List (ℕ × List (Row V)))
      → IsDict parts
      → All IsPlaced parts
      → insert_rows rows parts ≡ some parts'
      → IsInserted rows parts parts'
  unfolding insert_rows
  insert_rows-Inserted [] parts parts' u p e =
      let same : parts ≡ parts' = ground arith in
      subst (λ x. IsInserted [] parts x) same
        (record { months = u; placed = p; added = λ s h. refl })
  insert_rows-Inserted (r ∷ rows) parts parts' u p e =
      elim (Bool-cases (has_row r.sid r.ts (rows_of (lookup (month_partition_key r.ts) parts)))) [
        | inl there ↦ absurd (ground arith)
        | inr fresh ↦
            let one = put_row-Inserted r parts u p in
            let more =
              insert_rows-Inserted rows (put_row r parts) parts' one.months one.placed
                (ground arith) in
            record {
              months = more.months;
              placed = more.placed;
              added = λ s h.
                  more.added s h
                  ∙ ap (join (partials A) (gather (partials A) (at_hour s h) rows))
                      (raw-put_row r parts s h)
                  ∙ join_swap (partials A) (gather (partials A) (at_hour s h) rows) (at_hour s h r)
                      (raw A parts s h)
                  ∙ sym (
                      join_assoc (partials A) (at_hour s h r)
                        (gather (partials A) (at_hour s h) rows) (raw A parts s h));
            }
      ]

  min_ts-le : (t : ℕ) (rows : List (Row V)) → min_ts t rows ≤ t
  unfolding min_ts
  min_ts-le t [] = omega arith
  min_ts-le t (r ∷ rows) = omega (arith, min_ts-le (min t r.ts) rows)

  min_ts-All : (t : ℕ) (rows : List (Row V)) → All (λ r. min_ts t rows ≤ r.ts) rows
  unfolding min_ts
  min_ts-All t [] = tt
  min_ts-All t (r ∷ rows) =
      (omega (arith, min_ts-le (min t r.ts) rows), min_ts-All (min t r.ts) rows)

  -- rows that are not older than `t` are not in an hour before that of `t`
  later_rows :
      (s h t : ℕ) (rows : List (Row V))
      → All (λ r. t ≤ r.ts) rows
      → h < hour_of t
      → gather (partials A) (at_hour s h) rows ≡ none
  later_rows s h t [] p q = refl
  later_rows s h t (r ∷ rows) p q =
      let apart : hour_of r.ts ≢ h = omega (arith, p.0) in
      ground (arith, apart, later_rows s h t rows p.1 q)

  join-eq_none : (a b : Option (Partial V)) → join (partials A) a b ≡ none → b ≡ none
  join-eq_none none b e = e
  join-eq_none (some a) none e = refl
  join-eq_none (some a) (some b) e = cc

  rewind_facts :
      (t : ℕ) (db : Db V)
      → ((rewind_watermark t db).0.partitions ≡ db.partitions)
        × ((rewind_watermark t db).0.rollup ≡ db.rollup)
        × (rollup_watermark (rewind_watermark t db).0 ≡ min (rollup_watermark db) (hour_of t))
  unfolding rewind_watermark rollup_watermark
  rewind_facts t db = ground arith

  added-IsSound :
      (t : ℕ) (rows : List (Row V)) (db db' : Db V)
      → IsSound A db
      → IsInserted rows db.partitions db'.partitions
      → All (λ r. t ≤ r.ts) rows
      → db'.rollup ≡ db.rollup
      → rollup_watermark db' ≡ min (rollup_watermark db) (hour_of t)
      → IsSound A db'
  added-IsSound t rows db db' sound i late same mark = record {
    months = i.months;
    hours = rw same sound.hours;
    placed = i.placed;
    on_hour = ground (arith, sound.on_hour, mark);
    exact = λ s h below. ground (
      arith,
      same,
      i.added s h,
      later_rows s h t rows late (omega (arith, mark, below)),
      sound.exact s h (omega (arith, mark, below)),
    );
    backed = λ s h nothing.
        let none_before =
          join-eq_none (gather (partials A) (at_hour s h) rows) (raw A db.partitions s h)
            (sym (i.added s h) ∙ nothing) in
        ap (lookup (s, h)) same ∙ sound.backed s h none_before;
  }

  -- A batch that is accepted, whatever the age of its rows, leaves sound tables.
  pub insert_many-IsSound :
      (rows : List (Row V)) (db db' : Db V) (count : ℕ)
      → IsSound A db
      → insert_many rows db ≡ some (db', count)
      → IsSound A db'
  unfolding insert_many rollup_watermark
  insert_many-IsSound [] db db' count sound e =
      let same : db ≡ db' = ground arith in subst (IsSound A) same sound
  insert_many-IsSound (r ∷ rows) db db' count sound e =
      elim (Option-cases (insert_rows (r ∷ rows) db.partitions)) [
        | inl refused ↦ absurd (ground (arith, refused))
        | inr (parts, taken) ↦
            let t : ℕ = min_ts r.ts rows in
            let base : Db V = record db { partitions = parts } in
            let (same_parts, same_rollup, mark) = rewind_facts t base in
            let same : (rewind_watermark t base).0 ≡ db' = ground (arith, taken) in
            let i =
              insert_rows-Inserted (r ∷ rows) db.partitions parts sound.months sound.placed taken in
            subst (IsSound A) same (
              added-IsSound t (r ∷ rows) db (rewind_watermark t base).0 sound (rw same_parts i)
                (min_ts-le r.ts rows, min_ts-All r.ts rows) same_rollup mark)
      ]
