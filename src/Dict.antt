-- ===== src/Dict.antt =====
-- Python's `dict` and `OrderedDict`: entries in insertion order, with keys compared by `==`.
-- `assign` is `d[k] = v`, which keeps the place of a key that is there and appends one that is not.
use mathlib.Core.Option.{map as map_option}
use mathlib.Core.Path.{subst}
use sqtseries.Prelude.{sym, ◌∙◌, map}
use sqtseries.Prelude.{keep, ap, Bool}
use sqtseries.Prelude.{
  ℕ, ◌+◌, ◌≤◌, ◌≡◌, refl, Option, none, some, List, [], ◌∷◌, ◌++◌, arith, if◌then◌else◌, Eq, nat_eq,
  Option-cases, inl, inr, All, All-append, string_eq, length,
}

-- The sum of a weight over the values.
abbrev pub total {ℓ κ} : {K : Type ℓ} {V : Type κ} → (V → ℕ) → List (K × V) → ℕ
total w [] = 0
total w ((k, v) ∷ d) = w v + total w d

pub total-append {ℓ κ} :
    {K : Type ℓ} {V : Type κ} (w : V → ℕ) (c d : List (K × V))
    → total w (c ++ d) ≡ total w c + total w d
total-append w [] d = omega arith
total-append w ((k, v) ∷ c) d = omega (arith, total-append w c d)

module _ {ℓ κ} {K : Type ℓ} {V : Type κ} ⦃e : Eq K⦄ where
  unfoldable pub lookup : K → List (K × V) → Option V
  lookup k [] = none
  lookup k ((j, v) ∷ d) = if e.beq j k then some v else lookup k d

  unfoldable pub assign : K → V → List (K × V) → List (K × V)
  assign k v [] = (k, v) ∷ []
  assign k v ((j, w) ∷ d) = if e.beq j k then (j, v) ∷ d else (j, w) ∷ assign k v d

  -- `d.pop(k, None)`; keys are distinct, so at most one entry goes.
  unfoldable pub without : K → List (K × V) → List (K × V)
  without k [] = []
  without k ((j, v) ∷ d) = let rest = without k d in if e.beq j k then rest else (j, v) ∷ rest

  -- `d.move_to_end(k)`
  unfoldable pub move_to_end : K → List (K × V) → List (K × V)
  unfolding lookup without
  move_to_end k d = elim (lookup k d) [ none ↦ d | some v ↦ without k d ++ (k, v) ∷ [] ]

  -- The keys are distinct.
  abbrev pub IsDict : List (K × V) → Type κ
  IsDict [] = Unit
  IsDict ((k, v) ∷ d) = (lookup k d ≡ none) × IsDict d

  pub lookup-assign :
      (k j : K) (v : V) (d : List (K × V))
      → lookup j (assign k v d) ≡ (if e.beq k j then some v else lookup j d)
  unfolding lookup assign
  lookup-assign k j v [] = refl
  lookup-assign k j v ((i, w) ∷ d) =
      ground (arith, lookup-assign k j v d, e.beq_iff i k, e.beq_iff i j, e.beq_iff k j)

  pub lookup-without :
      (k j : K) (d : List (K × V))
      → lookup j (without k d) ≡ (if e.beq k j then none else lookup j d)
  unfolding lookup without
  lookup-without k j [] = ground arith
  lookup-without k j ((i, w) ∷ d) =
      ground (arith, lookup-without k j d, e.beq_iff i k, e.beq_iff i j, e.beq_iff k j)

  pub lookup-append :
      (j : K) (c d : List (K × V))
      → lookup j (c ++ d) ≡ elim (lookup j c) [ none ↦ lookup j d | some v ↦ some v ]
  unfolding lookup
  lookup-append j [] d = refl
  lookup-append j ((i, w) ∷ c) d = ground (arith, lookup-append j c d)

  pub without_absent : (k : K) (d : List (K × V)) → lookup k d ≡ none → without k d ≡ d
  unfolding lookup without
  without_absent k [] h = refl
  without_absent k ((i, w) ∷ d) h = ground (arith, without_absent k d)

  -- Removing a key that is there takes one entry away, so one entry off any total.
  pub total-without :
      (w : V → ℕ) (k : K) (v : V) (d : List (K × V))
      → IsDict d
      → lookup k d ≡ some v
      → total w (without k d) + w v ≡ total w d
  unfolding lookup without
  total-without w k v [] u h = cc
  total-without w k v ((i, x) ∷ d) u h =
      ground (arith, total-without w k v d, without_absent k d, e.beq_iff i k)

  pub length-without :
      (k : K) (v : V) (d : List (K × V))
      → IsDict d
      → lookup k d ≡ some v
      → length (without k d) + 1 ≡ length d
  unfolding lookup without
  length-without k v [] u h = cc
  length-without k v ((i, x) ∷ d) u h =
      ground (arith, length-without k v d, without_absent k d, e.beq_iff i k)

  pub length-without-le : (k : K) (d : List (K × V)) → length (without k d) ≤ length d
  unfolding without
  length-without-le k [] = omega arith
  length-without-le k ((i, x) ∷ d) = ground (arith, length-without-le k d)

  pub without-IsDict : (k : K) (d : List (K × V)) → IsDict d → IsDict (without k d)
  unfolding without
  without-IsDict k [] u = u
  without-IsDict k ((i, x) ∷ d) u = ground (arith, without-IsDict k d u.1, lookup-without k i d)

  pub append-IsDict :
      (k : K) (v : V) (d : List (K × V)) → IsDict d → lookup k d ≡ none → IsDict (d ++ (k, v) ∷ [])
  unfolding lookup
  append-IsDict k v [] u h = (refl, tt)
  append-IsDict k v ((i, x) ∷ d) u h = ground (
    arith,
    append-IsDict k v d u.1,
    lookup-append i d ((k, v) ∷ []),
    e.beq_iff i k,
    e.beq_iff k i,
  )

  pub assign-IsDict : (k : K) (v : V) (d : List (K × V)) → IsDict d → IsDict (assign k v d)
  unfolding lookup assign
  assign-IsDict k v [] u = (refl, tt)
  assign-IsDict k v ((i, x) ∷ d) u =
      ground (arith, assign-IsDict k v d u.1, lookup-assign k i v d, e.beq_iff i k, e.beq_iff k i)

  pub All-without {μ} :
      (P : K × V → Type μ) (k : K) (d : List (K × V)) → All P d → All P (without k d)
  unfolding without
  All-without P k [] h = h
  All-without P k ((i, x) ∷ d) h = ground (arith, All-without P k d h.1)

  -- What holds of every entry holds of one that is found.
  pub lookup-All {μ} :
      (P : K × V → Type μ) (k : K) (v : V) (d : List (K × V))
      → All P d
      → lookup k d ≡ some v
      → P (k, v)
  unfolding lookup
  lookup-All P k v [] h q = cc
  lookup-All P k v ((i, x) ∷ d) h q = ground (arith, lookup-All P k v d h.1, e.beq_iff i k)

  pub lookup-without_self : (k : K) (d : List (K × V)) → lookup k (without k d) ≡ none
  lookup-without_self k d = ground (arith, lookup-without k k d, e.beq_iff k k)

  -- Taking a key out and putting it back at the end, with any value.
  pub renew-IsDict :
      (k : K) (v : V) (d : List (K × V)) → IsDict d → IsDict (without k d ++ (k, v) ∷ [])
  renew-IsDict k v d u =
      append-IsDict k v (without k d) (without-IsDict k d u) (lookup-without_self k d)

  pub renew-All {μ} :
      (P : K × V → Type μ) (k : K) (v : V) (d : List (K × V))
      → All P d
      → P (k, v)
      → All P (without k d ++ (k, v) ∷ [])
  renew-All P k v d h p = All-append P (without k d) ((k, v) ∷ []) (All-without P k d h) (p, tt)

  pub lookup-renew :
      (k j : K) (v : V) (d : List (K × V))
      → lookup j (without k d ++ (k, v) ∷ []) ≡ (if e.beq k j then some v else lookup j d)
  unfolding lookup
  lookup-renew k j v d =
      ground (arith, lookup-append j (without k d) ((k, v) ∷ []), lookup-without k j d)

  pub move_to_end-renew :
      (k : K) (v : V) (d : List (K × V))
      → lookup k d ≡ some v
      → move_to_end k d ≡ without k d ++ (k, v) ∷ []
  unfolding move_to_end
  move_to_end-renew k v d h = rw (h, move_to_end)

  pub lookup-move_to_end : (k j : K) (d : List (K × V)) → lookup j (move_to_end k d) ≡ lookup j d
  unfolding move_to_end
  lookup-move_to_end k j d = elim (Option-cases (lookup k d)) [
    | inl h ↦ rw (h, move_to_end)
    | inr (v, h) ↦ rw (h, move_to_end) (ground (arith, lookup-renew k j v d, e.beq_iff k j))
  ]

  pub lookup-keep :
      (test : K → Bool) (k : K) (d : List (K × V))
      → lookup k (keep (λ x. test x.0) d) ≡ (if test k then lookup k d else none)
  unfolding lookup
  lookup-keep test k [] = ground arith
  lookup-keep test k ((j, v) ∷ d) =
      ground (arith, lookup-keep test k d, e.beq_iff j k, same_test j k)
    where
      same_test : (a b : K) → a ≡ b → test a ≡ test b
      same_test a b p = ap test p

  pub keep-IsDict :
      (test : K → Bool) (d : List (K × V)) → IsDict d → IsDict (keep (λ x. test x.0) d)
  keep-IsDict test [] u = u
  keep-IsDict test ((j, v) ∷ d) u = ground (arith, keep-IsDict test d u.1, lookup-keep test j d)

  pub All-assign {μ} :
      (P : K × V → Type μ) (k : K) (v : V) (d : List (K × V))
      → All P d
      → P (k, v)
      → All P (assign k v d)
  unfolding assign
  All-assign P k v [] h p = (p, tt)
  All-assign P k v ((j, w) ∷ d) h p =
      let same : j ≡ k → P (j, v) = λ q. subst (λ i. P (i, v)) (sym q) p in
      ground (arith, All-assign P k v d h.1 p, e.beq_iff j k, same)

-- The values change, the keys stay.
abbrev pub map_values {ℓ κ μ} :
    {K : Type ℓ} {V : Type κ} {W : Type μ} → (V → W) → List (K × V) → List (K × W)
map_values f = map (λ p. (p.0, f p.1))

module _ {ℓ κ μ} {K : Type ℓ} {V : Type κ} {W : Type μ} ⦃e : Eq K⦄ (f : V → W) where
  pub lookup-map_values :
      (k : K) (d : List (K × V)) → lookup k (map_values f d) ≡ map_option f (lookup k d)
  unfolding lookup
  lookup-map_values k [] = refl
  lookup-map_values k ((j, v) ∷ d) = ground (arith, lookup-map_values k d)

  pub map_values-IsDict : (d : List (K × V)) → IsDict d → IsDict (map_values f d)
  map_values-IsDict [] u = tt
  map_values-IsDict ((j, v) ∷ d) u =
      (lookup-map_values j d ∙ ap (map_option f) u.0, map_values-IsDict d u.1)
