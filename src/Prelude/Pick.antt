-- ===== src/Prelude/Pick.antt =====
-- Lists of which one element is taken at a place, and the sum of a weight over a list.
use sqtseries.Prelude.{
  ℕ, zero, suc, ◌+◌, ◌≡◌, refl, Option, none, some, List, [], ◌∷◌, arith, nat_eq, string_eq, length,
}

module _ {ℓ} {A : Type ℓ} where
  -- the element at a place, and the others
  unfoldable pub pick : ℕ → List A → Option (A × List A)
  pick n [] = none
  pick zero (a ∷ l) = some (a, l)
  pick (suc n) (a ∷ l) = elim (pick n l) [ none ↦ none | some (b, others) ↦ some (b, a ∷ others) ]

  abbrev pub weight : (A → ℕ) → List A → ℕ
  weight w [] = 0
  weight w (a ∷ l) = w a + weight w l

  -- what is left when an element is picked
  pub record Rest (l : List A) (a : A) (others : List A) : Type ℓ where
    pub fewer : length others + 1 ≡ length l
    pub weighs : (w : A → ℕ) → weight w l ≡ w a + weight w others

  abbrev pub Picked : List A → Option (A × List A) → Type ℓ
  Picked l none = Unit
  Picked l (some (a, others)) = Rest l a others

  pub pick-Picked : (n : ℕ) (l : List A) → Picked l (pick n l)
  unfolding pick
  pick-Picked n [] = tt
  pick-Picked zero (a ∷ l) = record { fewer = omega arith; weighs = λ w. refl }
  pick-Picked (suc n) (a ∷ l) = with_first (pick n l) (pick-Picked n l)
    where
      with_first :
          (o : Option (A × List A))
          → Picked l o
          → Picked (a ∷ l) (elim o as (λ _. Option (A × List A)) [
            | none ↦ none
            | some (b, others) ↦ some (b, a ∷ others)
          ])
      with_first none p = p
      with_first (some (b, others)) p = record {
        fewer = omega (arith, p.fewer);
        weighs = λ w. omega (arith, p.weighs w);
      }
