-- ===== src/Agg/Gaps.antt =====
-- query/agg.py: what `gap_fill_linear` adds, and what it leaves.
use sqtseries.Prelude.{
  ℕ, ◌+◌, ◌-◌, ◌*◌, ◌/◌, ◌≤◌, ◌<◌, ◌≡◌, ◌⊎◌, if◌then◌else◌, inl, inr, ◌&&◌, List, [], ◌∷◌, arith,
  ltb, leb, Bool-cases, nat_eq, string_eq, length,
}
use sqtseries.Agg.{Floats, gap_fill_linear}

-- `xs` is what is left of `ys` when some elements are taken out.
pub data Part {A : Type 0} : List A → List A → Type 0 where
  done : Part [] []
  kept : {x : A} {xs ys : List A} → Part xs ys → Part (x ∷ xs) (x ∷ ys)
  extra : {y : A} {xs ys : List A} → Part xs ys → Part xs (y ∷ ys)

-- no timestamp is before the one in front of it
abbrev pub IsOrdered : {V : Type 0} → List (ℕ × V) → Type 0
IsOrdered [] = Unit
IsOrdered (s ∷ []) = Unit
IsOrdered (s ∷ t ∷ samples) = (s.0 ≤ t.0) × IsOrdered (t ∷ samples)

module _ {V : Type 0} (F : Floats V) (max_gap_ns : ℕ) where
  Part-gap_fill_linear :
      (samples : List (ℕ × V)) → Part samples (gap_fill_linear F max_gap_ns samples)
  unfolding gap_fill_linear
  Part-gap_fill_linear [] = done
  Part-gap_fill_linear (s ∷ []) = kept done
  Part-gap_fill_linear (s ∷ t ∷ samples) =
      elim (Bool-cases (ltb s.0 t.0 && leb (t.0 - s.0) max_gap_ns)) [
        | inl close ↦ rw close (kept (extra (Part-gap_fill_linear (t ∷ samples))))
        | inr wide ↦ rw wide (kept (Part-gap_fill_linear (t ∷ samples)))
      ]

  -- the output begins with the first sample
  IsOrdered-after :
      (a : ℕ) (v : V) (t : ℕ × V) (samples : List (ℕ × V))
      → a ≤ t.0
      → IsOrdered (gap_fill_linear F max_gap_ns (t ∷ samples))
      → IsOrdered ((a, v) ∷ gap_fill_linear F max_gap_ns (t ∷ samples))
  unfolding gap_fill_linear
  IsOrdered-after a v t [] h u = (h, u)
  IsOrdered-after a v t (s ∷ samples) h u =
      elim (Bool-cases (ltb t.0 s.0 && leb (s.0 - t.0) max_gap_ns)) [
        | inl close ↦ rw close (h, rw close at u)
        | inr wide ↦ rw wide (h, rw wide at u)
      ]

  gap_fill_linear-IsOrdered :
      (samples : List (ℕ × V))
      → IsOrdered samples
      → IsOrdered (gap_fill_linear F max_gap_ns samples)
  unfolding gap_fill_linear
  gap_fill_linear-IsOrdered [] u = tt
  gap_fill_linear-IsOrdered (s ∷ []) u = tt
  gap_fill_linear-IsOrdered (s ∷ t ∷ samples) u =
      let rest = gap_fill_linear-IsOrdered (t ∷ samples) u.1 in
      let mid : ℕ = s.0 + (t.0 - s.0) / 2 in
      elim (Bool-cases (ltb s.0 t.0 && leb (t.0 - s.0) max_gap_ns)) [
        | inl close ↦ rw close (
          omega arith,
          IsOrdered-after mid (F.over (F.add s.1 t.1) 2) t samples (omega (arith, u.0)) rest,
        )
        | inr wide ↦ rw wide (IsOrdered-after s.0 s.1 t samples u.0 rest)
      ]

  -- each gap is wider than the limit or at most half of it, rounded up
  pub IsFine : List (ℕ × V) → Type 0
  IsFine [] = Unit
  IsFine (s ∷ []) = Unit
  IsFine (s ∷ t ∷ samples) =
      ((max_gap_ns < t.0 - s.0) ⊎ (2 * (t.0 - s.0) ≤ max_gap_ns + 1)) × IsFine (t ∷ samples)

  IsFine-after :
      (a : ℕ) (v : V) (t : ℕ × V) (samples : List (ℕ × V))
      → (max_gap_ns < t.0 - a) ⊎ (2 * (t.0 - a) ≤ max_gap_ns + 1)
      → IsFine (gap_fill_linear F max_gap_ns (t ∷ samples))
      → IsFine ((a, v) ∷ gap_fill_linear F max_gap_ns (t ∷ samples))
  unfolding gap_fill_linear IsFine
  IsFine-after a v t [] h u = (h, u)
  IsFine-after a v t (s ∷ samples) h u =
      elim (Bool-cases (ltb t.0 s.0 && leb (s.0 - t.0) max_gap_ns)) [
        | inl close ↦ rw close (h, rw close at u)
        | inr wide ↦ rw wide (h, rw wide at u)
      ]

  gap_fill_linear-IsFine :
      (samples : List (ℕ × V)) → IsOrdered samples → IsFine (gap_fill_linear F max_gap_ns samples)
  unfolding gap_fill_linear IsFine
  gap_fill_linear-IsFine [] u = tt
  gap_fill_linear-IsFine (s ∷ []) u = tt
  gap_fill_linear-IsFine (s ∷ t ∷ samples) u =
      let rest = gap_fill_linear-IsFine (t ∷ samples) u.1 in
      let mid : ℕ = s.0 + (t.0 - s.0) / 2 in
      elim (Bool-cases (ltb s.0 t.0 && leb (t.0 - s.0) max_gap_ns)) [
        | inl close ↦ rw close (
          inr (ground (arith, close)),
          IsFine-after mid (F.over (F.add s.1 t.1) 2) t samples (inr (ground (arith, close))) rest,
        )
        | inr wide ↦ rw wide (IsFine-after s.0 s.1 t samples (ground (arith, wide, u.0)) rest)
      ]

  -- the number of gaps that are not too wide
  abbrev pub narrow_gaps : List (ℕ × V) → ℕ
  narrow_gaps [] = 0
  narrow_gaps (s ∷ []) = 0
  narrow_gaps (s ∷ t ∷ samples) =
      (if ltb s.0 t.0 && leb (t.0 - s.0) max_gap_ns then 1 else 0) + narrow_gaps (t ∷ samples)

  gap_fill_linear-length :
      (samples : List (ℕ × V))
      → length (gap_fill_linear F max_gap_ns samples) ≡ length samples + narrow_gaps samples
  unfolding gap_fill_linear
  gap_fill_linear-length [] = omega arith
  gap_fill_linear-length (s ∷ []) = omega arith
  gap_fill_linear-length (s ∷ t ∷ samples) =
      elim (Bool-cases (ltb s.0 t.0 && leb (t.0 - s.0) max_gap_ns)) [
        | inl close ↦ rw close (omega (arith, gap_fill_linear-length (t ∷ samples)))
        | inr wide ↦ rw wide (omega (arith, gap_fill_linear-length (t ∷ samples)))
      ]

  -- Filling the gaps of samples in order of time keeps every sample, in their order, leaves the
  -- result in order of time, adds as many points as there are gaps that are neither empty nor wider
  -- than the limit, and leaves no gap but those wider than the limit and those of at most half of
  -- it, rounded up.
  pub gap_fill_linear_lem :
      (samples : List (ℕ × V))
      → IsOrdered samples
      → Part samples (gap_fill_linear F max_gap_ns samples)
        × IsOrdered (gap_fill_linear F max_gap_ns samples)
        × IsFine (gap_fill_linear F max_gap_ns samples)
        × (length (gap_fill_linear F max_gap_ns samples) ≡ length samples + narrow_gaps samples)
  gap_fill_linear_lem samples u = (
    Part-gap_fill_linear samples,
    gap_fill_linear-IsOrdered samples u,
    gap_fill_linear-IsFine samples u,
    gap_fill_linear-length samples,
  )
