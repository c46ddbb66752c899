-- ===== src/Scan/Gathered.antt =====
-- engine/store.py: range reads with and without a limit, as sums over the rows.
use sqtseries.Prelude.{
  ℕ, zero, suc, ◌-◌, ◌<◌, ◌≡◌, refl, ap, ◌∙◌, Option, none, some, List, [], ◌∷◌, arith,
  if◌then◌else◌, nat_eq, string_eq, length, take, length-append,
}
use sqtseries.Dict.{lookup}
use sqtseries.Partials.Gather.{Combining, gather, gather-append, gather-keep, gather-sorted}
use sqtseries.Rollup.{Row, Db}
use sqtseries.Rollup.Writes.{rows_of}
use sqtseries.Scan.{Order, selected, row_le, select_rows, scan}

-- A limit that is not reached changes nothing.
take_short {ℓ} : {A : Type ℓ} (n : ℕ) (xs : List A) → length (take n xs) < n → take n xs ≡ xs
take_short zero xs h = elim h [ ]
take_short (suc n) [] h = refl
take_short (suc n) (x ∷ xs) h = ap (◌∷◌ x) (take_short n xs (omega arith))

module _ {V : Type 0} (sids : List ℕ) (start end : Option ℕ) (order : Order) (db : Db V) where
  pub scan_short :
      (ms : List ℕ) (n : ℕ)
      → length (scan sids start end order ms (some n) db) < n
      → scan sids start end order ms (some n) db ≡ scan sids start end order ms none db
  unfolding scan
  scan_short [] n h = refl
  scan_short (m ∷ ms) n h =
      let rows = select_rows sids start end order m db in
      let split =
        length-append (take n rows)
          (scan sids start end order ms (some (n - length (take n rows))) db) in
      let whole = take_short n rows (omega (arith, split, h)) in
      let later = scan_short ms (n - length (take n rows)) (omega (arith, split, h)) in
      cc (whole, later, ap length whole)

module _ {V P : Type 0} (C : Combining P) (g : ℕ × V → Option P) where
  -- what a row contributes if it is selected
  abbrev pub chosen : List ℕ → Option ℕ → Option ℕ → Row V → Option P
  chosen sids start end r = if selected sids start end r then g (r.ts, r.value) else none

  module _ (sids : List ℕ) (start end : Option ℕ) where
    unfoldable pub partition_sum : List (ℕ × List (Row V)) → ℕ → Option P
    partition_sum parts m = gather C (chosen sids start end) (rows_of (lookup m parts))

    gather-select_rows :
        (order : Order) (m : ℕ) (db : Db V)
        → gather C (λ r. g (r.ts, r.value)) (select_rows sids start end order m db)
          ≡ partition_sum db.partitions m
    unfolding select_rows partition_sum
    gather-select_rows order m db =
        gather-sorted C (λ (r : Row V). g (r.ts, r.value)) (row_le order) _
        ∙ gather-keep C (λ (r : Row V). g (r.ts, r.value)) (selected sids start end) _

    pub gather-scan :
        (order : Order) (ms : List ℕ) (db : Db V)
        → gather C (λ r. g (r.ts, r.value)) (scan sids start end order ms none db)
          ≡ gather C (partition_sum db.partitions) ms
    unfolding scan
    gather-scan order [] db = refl
    gather-scan order (m ∷ ms) db =
        gather-append C (λ (r : Row V). g (r.ts, r.value)) (select_rows sids start end order m db)
          (scan sids start end order ms none db)
        ∙ cc (gather-select_rows order m db, gather-scan order ms db)
