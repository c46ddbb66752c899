-- ===== src/Agg/Buckets.antt =====
-- query/agg.py: the buckets of `downsample`, against the samples of each.
use sqtseries.Prelude.{
  ℕ, ◌*◌, ◌<◌, ◌≡◌, refl, sym, ap, ◌∙◌, inl, inr, Bool, false, ◌||◌, none, List, [], ◌∷◌, ◌++◌, map,
  arith, leb, ◌==◌, Bool-cases, nat_eq, string_eq, keep, All,
}
use mathlib.Core.List.{append_assoc, append-nil}
use sqtseries.Prelude.Sorted.{insert, sorted, has, has-sorted, insert-All}
use sqtseries.Dict.{lookup, assign, lookup-assign, IsDict, assign-IsDict}
use sqtseries.Agg.{bucket_key, values_of, group, keys, downsample}

-- the values of the samples of a bucket
abbrev pub values_at : {V : Type 0} → ℕ → ℕ → List (ℕ × V) → List V
values_at bucket_ns b samples = map (λ s. s.1) (keep (λ s. bucket_key bucket_ns s == b) samples)

abbrev pub IsAscending : List ℕ → Type 0
IsAscending [] = Unit
IsAscending (a ∷ l) = All (λ b. a < b) l × IsAscending l

abbrev Below : ℕ → List ℕ → Type 0
Below a = All (λ b. a < b)

Below-more : (a b : ℕ) (l : List ℕ) → a < b → Below b l → Below a l
Below-more a b [] h k = tt
Below-more a b (c ∷ l) h k = (omega (arith, k.0), Below-more a b l h k.1)

insert-IsAscending :
    (a : ℕ) (l : List ℕ) → IsAscending l → has a l ≡ false → IsAscending (insert leb a l)
unfolding insert
insert-IsAscending a [] u h = (tt, tt)
insert-IsAscending a (b ∷ l) u h = elim (Bool-cases (leb a b)) [
  | inl before ↦
      let first : a < b = ground arith in
      rw (before, insert) ((first, Below-more a b l first u.0), u)
  | inr after ↦
      rw (after, insert)
        (
          insert-All leb (λ c. b < c) a l (ground arith) u.0,
          insert-IsAscending a l u.1 (ground arith),
        )
]

-- keys that differ
abbrev AreDistinct : List ℕ → Type 0
AreDistinct [] = Unit
AreDistinct (a ∷ l) = (has a l ≡ false) × AreDistinct l

sorted-IsAscending : (l : List ℕ) → AreDistinct l → IsAscending (sorted leb l)
unfolding sorted
sorted-IsAscending [] u = tt
sorted-IsAscending (a ∷ l) u =
    insert-IsAscending a (sorted leb l) (sorted-IsAscending l u.1) (has-sorted leb a l ∙ u.0)

or_swap : (x y z : Bool) → ((x || y) || z) ≡ (y || (x || z))
or_swap x y z = ground arith

module _ {V : Type 0} where
  has-keys : (a : ℕ) (d : List (ℕ × List V)) → lookup a d ≡ none → has a (keys d) ≡ false
  unfolding lookup
  has-keys a [] h = refl
  has-keys a ((b, v) ∷ d) h = ground (arith, has-keys a d)

  keys-AreDistinct : (d : List (ℕ × List V)) → IsDict d → AreDistinct (keys d)
  keys-AreDistinct [] u = tt
  keys-AreDistinct ((a, v) ∷ d) u = (has-keys a d u.0, keys-AreDistinct d u.1)

  has-assign :
      (a k : ℕ) (v : List V) (d : List (ℕ × List V))
      → has a (keys (assign k v d)) ≡ (a == k || has a (keys d))
  unfolding assign
  has-assign a k v [] = refl
  has-assign a k v ((b, w) ∷ d) = ground (arith, has-assign a k v d)

  module _ (bucket_ns : ℕ) where
    -- the buckets with one more sample
    abbrev with_sample : ℕ × V → List (ℕ × List V) → List (ℕ × List V)
    with_sample s d =
        assign (bucket_key bucket_ns s) (values_of (lookup (bucket_key bucket_ns s) d) ++ s.1 ∷ [])
          d

    lookup-with_sample :
        (b : ℕ) (s : ℕ × V) (d : List (ℕ × List V))
        → values_of (lookup b (with_sample s d))
          ≡ values_of (lookup b d) ++ values_at bucket_ns b (s ∷ [])
    lookup-with_sample b s d =
        let k : ℕ = bucket_key bucket_ns s in
        let found = lookup-assign k b (values_of (lookup k d) ++ s.1 ∷ []) d in
        elim (Bool-cases (k == b)) [
          | inl mine ↦
              let e : k ≡ b = ground (arith, mine) in
              ap values_of found ∙ rw mine (ap (λ j. values_of (lookup j d) ++ s.1 ∷ []) e)
          | inr other ↦ ap values_of found ∙ rw other (sym (append-nil (values_of (lookup b d))))
        ]

    values_at-cons :
        (b : ℕ) (s : ℕ × V) (samples : List (ℕ × V))
        → values_at bucket_ns b (s ∷ []) ++ values_at bucket_ns b samples
          ≡ values_at bucket_ns b (s ∷ samples)
    values_at-cons b s samples = elim (Bool-cases (bucket_key bucket_ns s == b)) [
      | inl mine ↦ rw mine refl
      | inr other ↦ rw other refl
    ]

    lookup-group :
        (b : ℕ) (samples : List (ℕ × V)) (d : List (ℕ × List V))
        → values_of (lookup b (group bucket_ns d samples))
          ≡ values_of (lookup b d) ++ values_at bucket_ns b samples
    unfolding group
    lookup-group b [] d = sym (append-nil (values_of (lookup b d)))
    lookup-group b (s ∷ samples) d =
        lookup-group b samples (with_sample s d)
        ∙ ap (λ x. x ++ values_at bucket_ns b samples) (lookup-with_sample b s d)
        ∙ append_assoc (values_of (lookup b d)) (values_at bucket_ns b (s ∷ [])) _
        ∙ ap (λ x. values_of (lookup b d) ++ x) (values_at-cons b s samples)

    group-IsDict :
        (samples : List (ℕ × V)) (d : List (ℕ × List V))
        → IsDict d
        → IsDict (group bucket_ns d samples)
    unfolding group
    group-IsDict [] d u = u
    group-IsDict (s ∷ samples) d u =
        group-IsDict samples (with_sample s d) (assign-IsDict (bucket_key bucket_ns s) _ d u)

    has-group :
        (a : ℕ) (samples : List (ℕ × V)) (d : List (ℕ × List V))
        → has a (keys (group bucket_ns d samples))
          ≡ (has a (keys d) || has a (map (bucket_key bucket_ns) samples))
    unfolding group
    has-group a [] d = ground arith
    has-group a (s ∷ samples) d =
        let k : ℕ = bucket_key bucket_ns s in
        has-group a samples (with_sample s d)
        ∙ ap (λ x. x || has a (map (bucket_key bucket_ns) samples))
            (has-assign a k (values_of (lookup k d) ++ s.1 ∷ []) d)
        ∙ or_swap (a == k) (has a (keys d)) (has a (map (bucket_key bucket_ns) samples))

    -- The result has one entry for each bucket that holds a sample, in ascending order: the start
    -- of the bucket and the aggregate of exactly the bucket's values, in the order of the samples.
    pub downsample_exact :
        (agg : List V → V) (samples : List (ℕ × V))
        → (bs : List ℕ) × IsAscending bs
          × ((b : ℕ) → has b bs ≡ has b (map (bucket_key bucket_ns) samples))
          × (downsample bucket_ns agg samples
              ≡ map {B = ℕ × V} (λ b. (b * bucket_ns, agg (values_at bucket_ns b samples))) bs)
    unfolding downsample
    downsample_exact agg samples = (
      sorted leb (keys (group bucket_ns [] samples)),
      sorted-IsAscending _ (keys-AreDistinct _ (group-IsDict samples [] tt)),
      λ b. has-sorted leb b _ ∙ has-group b samples [],
      map_same _,
    )
      where
        map_same :
            (bs : List ℕ)
            → map {B = ℕ × V}
                (λ b. (b * bucket_ns, agg (values_of (lookup b (group bucket_ns [] samples)))))
                bs
              ≡ map {B = ℕ × V} (λ b. (b * bucket_ns, agg (values_at bucket_ns b samples))) bs
        map_same [] = refl
        map_same (b ∷ bs) = cc (lookup-group b samples [], map_same bs)
