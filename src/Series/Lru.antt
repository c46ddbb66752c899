-- ===== src/Series/Lru.antt =====
-- engine/store.py: lookups in the bounded cache `_LRUCache` after its operations.
use mathlib.Core.Path.{subst}
use sqtseries.Prelude.{
  ℕ, zero, suc, ◌-◌, ◌≡◌, refl, inl, inr, none, some, List, [], ◌∷◌, arith, if◌then◌else◌,
  Bool-cases, Option-cases, Eq, nat_eq, string_eq, length, drop,
}
use sqtseries.Dict.{
  lookup, assign, move_to_end, lookup-assign, lookup-move_to_end, IsDict, assign-IsDict,
  renew-IsDict,
}
use sqtseries.Series.{lru_get, lru_put}

module _ {K V : Type 0} ⦃e : Eq K⦄ where
  lookup-drop :
      (n : ℕ) (j : K) (w : V) (d : List (K × V))
      → IsDict d
      → lookup j (drop n d) ≡ some w
      → lookup j d ≡ some w
  unfolding lookup
  lookup-drop zero j w d u h = h
  lookup-drop (suc n) j w [] u h = h
  lookup-drop (suc n) j w ((i, v) ∷ d) u h =
      let later = lookup-drop n j w d u.1 h in
      elim (Bool-cases (e.beq i j)) [
        | inl same ↦
            let e' : i ≡ j = (e.beq_iff i j).0 same in
            let here : lookup j d ≡ none = subst (λ k. lookup k d ≡ none) e' u.0 in cc (here, later)
        | inr other ↦ rw other later
      ]

  drop-IsDict : (n : ℕ) (d : List (K × V)) → IsDict d → IsDict (drop n d)
  drop-IsDict zero d u = u
  drop-IsDict (suc n) [] u = u
  drop-IsDict (suc n) ((i, v) ∷ d) u = drop-IsDict n d u.1

  move_to_end-IsDict : (k : K) (d : List (K × V)) → IsDict d → IsDict (move_to_end k d)
  unfolding move_to_end
  move_to_end-IsDict k d u = elim (Option-cases (lookup k d)) [
    | inl absent ↦ rw (absent, move_to_end) u
    | inr (v, found) ↦ rw (found, move_to_end) (renew-IsDict k v d u)
  ]

  pub lru_put-IsDict :
      (n : ℕ) (k : K) (v : V) (d : List (K × V)) → IsDict d → IsDict (lru_put n k v d)
  unfolding lru_put
  lru_put-IsDict n k v d u =
      drop-IsDict _ _ (assign-IsDict k v (move_to_end k d) (move_to_end-IsDict k d u))

  -- What the cache finds after a put is the new value, or what it found before.
  pub lookup-lru_put :
      (n : ℕ) (k j : K) (v w : V) (d : List (K × V))
      → IsDict d
      → lookup j (lru_put n k v d) ≡ some w
      → (if e.beq k j then some v else lookup j d) ≡ some w
  unfolding lru_put
  lookup-lru_put n k j v w d u h =
      let grown = assign k v (move_to_end k d) in
      let kept =
        lookup-drop (length grown - n) j w grown (assign-IsDict k v _ (move_to_end-IsDict k d u))
          h in
      ground (arith, kept, lookup-assign k j v (move_to_end k d), lookup-move_to_end k j d)

  pub lru_get-IsDict : (k : K) (d : List (K × V)) → IsDict d → IsDict (lru_get k d).0
  unfolding lru_get
  lru_get-IsDict k d u = elim (Option-cases (lookup k d)) [
    | inl absent ↦ rw (absent, lru_get) u
    | inr (v, found) ↦ rw (found, lru_get) (move_to_end-IsDict k d u)
  ]

  pub lookup-lru_get :
      (k j : K) (d : List (K × V))
      → (lookup j (lru_get k d).0 ≡ lookup j d) × ((lru_get k d).1 ≡ lookup k d)
  unfolding lru_get
  lookup-lru_get k j d = elim (Option-cases (lookup k d)) [
    | inl absent ↦ rw (absent, lru_get) (refl, refl)
    | inr (v, found) ↦ rw (found, lru_get) (lookup-move_to_end k j d, refl)
  ]
