-- ===== src/Partials/Tables.antt =====
-- Tables of partial aggregates by key: adding to a table, and summing a table over its keys.
use sqtseries.Prelude.{
  ◌≡◌, refl, sym, ap, ◌∙◌, inl, inr, Bool, true, false, Option, none, some, List, [], ◌∷◌, arith,
  if◌then◌else◌, Bool-cases, Eq, nat_eq, string_eq,
}
use sqtseries.Dict.{
  lookup, without, assign, IsDict, lookup-assign, assign-IsDict, lookup-without, without-IsDict,
  without_absent,
}
use sqtseries.Partials.Gather.{Combining, join, join-none, join_assoc, join_comm, join_swap, gather}

-- `stats = d.get(k)`: a new entry if there is none, or the old one with `p` added
abbrev pub sum_with : {P : Type 0} → Combining P → Option P → P → P
sum_with C none p = p
sum_with C (some q) p = C.combine q p

module _ {K P : Type 0} (C : Combining P) ⦃e : Eq K⦄ where
  unfoldable pub upsert : K → P → List (K × P) → List (K × P)
  upsert k p d = assign k (sum_with C (lookup k d) p) d

  unfoldable pub merge : List (K × P) → List (K × P) → List (K × P)
  unfolding upsert
  merge d [] = d
  merge d ((k, p) ∷ parts) = merge (upsert k p d) parts

  -- What a part contributes to the key `k`.
  abbrev pub at_key : K → K × P → Option P
  at_key k x = if e.beq x.0 k then some x.1 else none

  -- What an entry contributes to a set of keys.
  abbrev pub at_keys : (K → Bool) → K × P → Option P
  at_keys test x = if test x.0 then some x.1 else none

  lookup-upsert :
      (k j : K) (p : P) (d : List (K × P))
      → lookup j (upsert k p d) ≡ join C (lookup j d) (at_key j (k, p))
  unfolding upsert
  lookup-upsert k j p d =
      ground (arith, lookup-assign k j (sum_with C (lookup k d) p) d, e.beq_iff k j)

  -- An entry of the merged table is the old one and all the parts of its key.
  pub lookup-merge :
      (j : K) (d parts : List (K × P))
      → lookup j (merge d parts) ≡ join C (lookup j d) (gather C (at_key j) parts)
  unfolding merge
  lookup-merge j d [] = sym (join-none C (lookup j d))
  lookup-merge j d ((k, p) ∷ parts) =
      lookup-merge j (upsert k p d) parts
      ∙ ap (λ x. join C x (gather C (at_key j) parts)) (lookup-upsert k j p d)
      ∙ join_assoc C (lookup j d) (at_key j (k, p)) (gather C (at_key j) parts)

  pub merge-IsDict : (d parts : List (K × P)) → IsDict d → IsDict (merge d parts)
  unfolding merge
  merge-IsDict d [] u = u
  merge-IsDict d ((k, p) ∷ parts) u =
      merge-IsDict (upsert k p d) parts (unfold upsert in assign-IsDict k _ d u)

  -- Taking a key that is in the set out of a table takes its entry off the sum.
  gather-without-some :
      (test : K → Bool) (k : K) (p : P) (d : List (K × P))
      → IsDict d
      → lookup k d ≡ some p
      → test k ≡ true
      → gather C (at_keys test) d ≡ join C (some p) (gather C (at_keys test) (without k d))
  unfolding lookup without
  gather-without-some test k p [] u h t = cc
  gather-without-some test k p ((j, q) ∷ d) u h t = elim (Bool-cases (e.beq j k)) [
    | inl same ↦ rw same (ground (arith, without_absent k d, e.beq_iff j k))
    | inr differ ↦ rw differ (
        ap (join C (at_keys test (j, q))) (gather-without-some test k p d u.1 (rw differ at h) t)
        ∙ join_swap C (at_keys test (j, q)) (some p) (gather C (at_keys test) (without k d)))
  ]

  gather-absent :
      (test : K → Bool) (d : List (K × P))
      → IsDict d
      → ((k : K) → test k ≡ true → lookup k d ≡ none)
      → gather C (at_keys test) d ≡ none
  unfolding lookup
  gather-absent test [] u h = refl
  gather-absent test ((j, q) ∷ d) u h = elim (Bool-cases (test j)) [
    | inl t ↦ ground (arith, h j t, e.beq_iff j j)
    | inr f ↦ rw f (gather-absent test d u.1 (λ k t. ground (arith, h k t)))
  ]

  -- Two tables that agree at every key of a set have the same sum over the set, in whatever order
  -- their entries stand.
  pub gather-same :
      (test : K → Bool) (c d : List (K × P))
      → IsDict c
      → IsDict d
      → ((k : K) → test k ≡ true → lookup k c ≡ lookup k d)
      → gather C (at_keys test) c ≡ gather C (at_keys test) d
  unfolding lookup
  gather-same test [] d uc ud h = sym (gather-absent test d ud (λ k t. sym (h k t)))
  gather-same test ((j, q) ∷ c) d uc ud h = elim (Bool-cases (test j)) [
    | inl t ↦
        let there : lookup j d ≡ some q = ground (arith, h j t, e.beq_iff j j) in
        rw t (
          ap (join C (some q)) (
            gather-same test c (without j d) uc.1 (without-IsDict j d ud)
              (λ k s. ground (arith, h k s, lookup-without j k d, e.beq_iff j k, uc.0)))
          ∙ sym (gather-without-some test j q d ud there t))
    | inr f ↦ rw f (gather-same test c d uc.1 ud (λ k s. ground (arith, h k s, e.beq_iff j k)))
  ]

  -- The parts of a set of keys, and the table that they make, have the same sum.
  upsert_hit :
      (k j : K) (p q : P) (d : List (K × P))
      → e.beq j k ≡ true
      → upsert k p ((j, q) ∷ d) ≡ (j, C.combine q p) ∷ d
  unfolding upsert assign lookup
  upsert_hit k j p q d h = ground arith

  upsert_skip :
      (k j : K) (p q : P) (d : List (K × P))
      → e.beq j k ≡ false
      → upsert k p ((j, q) ∷ d) ≡ (j, q) ∷ upsert k p d
  unfolding upsert assign lookup
  upsert_skip k j p q d h = ground arith

  at_keys-join :
      (test : K → Bool) (k : K) (p : P) (d : List (K × P))
      → gather C (at_keys test) (upsert k p d)
        ≡ join C (gather C (at_keys test) d) (at_keys test (k, p))
  at_keys-join test k p [] = unfold upsert assign lookup in ground arith
  at_keys-join test k p ((j, q) ∷ d) =
      let old : Option P = at_keys test (j, q) in
      let new : Option P = at_keys test (k, p) in
      let rest : Option P = gather C (at_keys test) d in
      elim (Bool-cases (e.beq j k)) [
        | inl same ↦
            let both : at_keys test (j, C.combine q p) ≡ join C old new =
              ground (arith, e.beq_iff j k) in
            rw (upsert_hit k j p q d same) (
              ap (λ x. join C x rest) both
              ∙ join_assoc C old new rest
              ∙ ap (join C old) (join_comm C new rest)
              ∙ sym (join_assoc C old rest new))
        | inr differ ↦
            rw (upsert_skip k j p q d differ)
              (ap (join C old) (at_keys-join test k p d) ∙ sym (join_assoc C old rest new))
      ]

  pub gather-merge :
      (test : K → Bool) (d parts : List (K × P))
      → IsDict d
      → gather C (at_keys test) (merge d parts)
        ≡ join C (gather C (at_keys test) d) (gather C (at_keys test) parts)
  unfolding merge
  gather-merge test d [] u = sym (join-none C (gather C (at_keys test) d))
  gather-merge test d ((k, p) ∷ parts) u =
      gather-merge test (upsert k p d) parts (unfold upsert in assign-IsDict k _ d u)
      ∙ ap (λ x. join C x (gather C (at_keys test) parts)) (at_keys-join test k p d)
      ∙ join_assoc C (gather C (at_keys test) d) (at_keys test (k, p))
          (gather C (at_keys test) parts)

  -- A table that has, at every key of a set, what the parts contribute to that key has the sum of
  -- the parts over the set.
  pub gather-table :
      (test : K → Bool) (table parts : List (K × P))
      → IsDict table
      → ((k : K) → test k ≡ true → lookup k table ≡ gather C (at_key k) parts)
      → gather C (at_keys test) table ≡ gather C (at_keys test) parts
  unfolding lookup
  gather-table test table parts u h =
      gather-same test table (merge [] parts) u (merge-IsDict [] parts tt)
        (λ k t. h k t ∙ sym (lookup-merge k [] parts))
      ∙ gather-merge test [] parts tt
