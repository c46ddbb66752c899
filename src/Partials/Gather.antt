-- ===== src/Partials/Gather.antt =====
-- Sums over a list of the partial aggregates that its elements contribute, up to order.
use sqtseries.Prelude.Sorted.{insert, sorted}
use sqtseries.Prelude.{Bool-cases, inl, inr}
use sqtseries.Prelude.{true, false}
use sqtseries.Prelude.{
  ◌≡◌, refl, sym, ap, ◌∙◌, Bool, Option, none, some, List, [], ◌∷◌, ◌++◌, map, arith, if◌then◌else◌,
  nat_eq, string_eq, keep, All,
}

-- Partial aggregates are combined in some order; the laws are those that make it immaterial.
pub record Combining (P : Type 0) : Type 0 where
  pub combine : P → P → P
  pub combine_assoc : (a b c : P) → combine (combine a b) c ≡ combine a (combine b c)
  pub combine_comm : (a b : P) → combine a b ≡ combine b a

module _ {P : Type 0} (C : Combining P) where
  abbrev pub join : Option P → Option P → Option P
  join none b = b
  join (some a) none = some a
  join (some a) (some b) = some (C.combine a b)

  pub join-none : (a : Option P) → join a none ≡ a
  join-none none = refl
  join-none (some a) = refl

  pub join_assoc : (a b c : Option P) → join (join a b) c ≡ join a (join b c)
  join_assoc none b c = refl
  join_assoc (some a) none c = refl
  join_assoc (some a) (some b) none = refl
  join_assoc (some a) (some b) (some c) = ap some (C.combine_assoc a b c)

  pub join_comm : (a b : Option P) → join a b ≡ join b a
  join_comm none none = refl
  join_comm none (some b) = refl
  join_comm (some a) none = refl
  join_comm (some a) (some b) = ap some (C.combine_comm a b)

  pub join_swap : (a b c : Option P) → join a (join b c) ≡ join b (join a c)
  join_swap a b c = sym (join_assoc a b c) ∙ ap (λ x. join x c) (join_comm a b) ∙ join_assoc b a c

  pub join_four : (a b c d : Option P) → join (join a b) (join c d) ≡ join (join a c) (join b d)
  join_four a b c d =
      join_assoc a b (join c d) ∙ ap (join a) (join_swap b c d) ∙ sym (join_assoc a c (join b d))

  -- What the elements of a list contribute together.
  abbrev pub gather {ℓ} : {A : Type ℓ} → (A → Option P) → List A → Option P
  gather g [] = none
  gather g (x ∷ xs) = join (g x) (gather g xs)

  pub gather-append {ℓ} :
      {A : Type ℓ} (g : A → Option P) (xs ys : List A)
      → gather g (xs ++ ys) ≡ join (gather g xs) (gather g ys)
  gather-append g [] ys = refl
  gather-append g (x ∷ xs) ys =
      ap (join (g x)) (gather-append g xs ys) ∙ sym (join_assoc (g x) (gather g xs) (gather g ys))

  pub gather-map {ℓ κ} :
      {A : Type ℓ} {B : Type κ} (g : B → Option P) (f : A → B) (xs : List A)
      → gather g (map f xs) ≡ gather (λ x. g (f x)) xs
  gather-map g f [] = refl
  gather-map g f (x ∷ xs) = ap (join (g (f x))) (gather-map g f xs)

  pub gather-keep {ℓ} :
      {A : Type ℓ} (g : A → Option P) (test : A → Bool) (xs : List A)
      → gather g (keep test xs) ≡ gather (λ x. if test x then g x else none) xs
  gather-keep g test [] = refl
  gather-keep g test (x ∷ xs) = ground (arith, gather-keep g test xs)

  pub gather-ext {ℓ} :
      {A : Type ℓ} (g h : A → Option P) (xs : List A)
      → All (λ x. g x ≡ h x) xs
      → gather g xs ≡ gather h xs
  gather-ext g h [] e = refl
  gather-ext g h (x ∷ xs) e = cc (e.0, gather-ext g h xs e.1)

  pub gather-join {ℓ} :
      {A : Type ℓ} (g h : A → Option P) (xs : List A)
      → gather (λ x. join (g x) (h x)) xs ≡ join (gather g xs) (gather h xs)
  gather-join g h [] = refl
  gather-join g h (x ∷ xs) =
      ap (join (join (g x) (h x))) (gather-join g h xs)
      ∙ join_four (g x) (h x) (gather g xs) (gather h xs)

  pub gather-all {ℓ} :
      {A : Type ℓ} (g h : A → Option P) (xs : List A)
      → ((x : A) → g x ≡ h x)
      → gather g xs ≡ gather h xs
  gather-all g h [] e = refl
  gather-all g h (x ∷ xs) e = cc (e x, gather-all g h xs e)

  pub gather-nothing {ℓ} :
      {A : Type ℓ} (g : A → Option P) (xs : List A) → All (λ x. g x ≡ none) xs → gather g xs ≡ none
  gather-nothing g [] e = refl
  gather-nothing g (x ∷ xs) e = ground (arith, e.0, gather-nothing g xs e.1)

  pub gather-if {ℓ} :
      {A : Type ℓ} (b : Bool) (g : A → Option P) (xs : List A)
      → gather (λ x. if b then g x else none) xs ≡ (if b then gather g xs else none)
  gather-if true g xs = refl
  gather-if false g [] = refl
  gather-if false g (x ∷ xs) = gather-if false g xs

  gather-insert {ℓ} :
      {A : Type ℓ} (g : A → Option P) (le : A → A → Bool) (x : A) (xs : List A)
      → gather g (insert le x xs) ≡ join (g x) (gather g xs)
  unfolding insert
  gather-insert g le x [] = refl
  gather-insert g le x (y ∷ xs) = elim (Bool-cases (le x y)) [
    | inl before ↦ rw before
    | inr after ↦
        rw after (ap (join (g y)) (gather-insert g le x xs) ∙ join_swap (g y) (g x) (gather g xs))
  ]

  -- Sorting does not change what the elements contribute together.
  pub gather-sorted {ℓ} :
      {A : Type ℓ} (g : A → Option P) (le : A → A → Bool) (xs : List A)
      → gather g (sorted le xs) ≡ gather g xs
  unfolding sorted
  gather-sorted g le [] = refl
  gather-sorted g le (x ∷ xs) =
      gather-insert g le x (sorted le xs) ∙ ap (join (g x)) (gather-sorted g le xs)
