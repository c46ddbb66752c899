-- ===== src/Prelude/Sorted.antt =====
-- Python's `sorted`, as an insertion sort by a Boolean order.
use sqtseries.Prelude.{◌∙◌, ap, keep, ◌&&◌}
use sqtseries.Prelude.{
  ℕ, ◌≡◌, refl, Bool, All, false, ◌||◌, ◌==◌, arith, List, [], ◌∷◌, arith, if◌then◌else◌,
}

module _ {ℓ} {A : Type ℓ} (le : A → A → Bool) where
  unfoldable pub insert : A → List A → List A
  insert a [] = a ∷ []
  insert a (b ∷ l) = if le a b then a ∷ b ∷ l else b ∷ insert a l

  unfoldable pub sorted : List A → List A
  unfolding insert
  sorted [] = []
  sorted (a ∷ l) = insert a (sorted l)

  pub insert-All {μ} : (P : A → Type μ) (a : A) (l : List A) → P a → All P l → All P (insert a l)
  unfolding insert
  insert-All P a [] p h = (p, tt)
  insert-All P a (b ∷ l) p h = ground (arith, insert-All P a l p h.1)

  pub sorted-All {μ} : (P : A → Type μ) (l : List A) → All P l → All P (sorted l)
  unfolding sorted
  sorted-All P [] h = tt
  sorted-All P (a ∷ l) h = insert-All P a (sorted l) h.0 (sorted-All P l h.1)

-- membership of numbers, as a test
abbrev pub has : ℕ → List ℕ → Bool
has m [] = false
has m (n ∷ l) = m == n || has m l

has-insert :
    (le : ℕ → ℕ → Bool) (m a : ℕ) (l : List ℕ) → has m (insert le a l) ≡ (m == a || has m l)
unfolding insert
has-insert le m a [] = refl
has-insert le m a (b ∷ l) = ground (arith, has-insert le m a l)

pub has-sorted : (le : ℕ → ℕ → Bool) (m : ℕ) (l : List ℕ) → has m (sorted le l) ≡ has m l
unfolding sorted
has-sorted le m [] = refl
has-sorted le m (a ∷ l) =
    has-insert le m a (sorted le l) ∙ ap (λ b. m == a || b) (has-sorted le m l)

pub has-keep : (test : ℕ → Bool) (m : ℕ) (l : List ℕ) → has m (keep test l) ≡ (test m && has m l)
has-keep test m [] = ground arith
has-keep test m (a ∷ l) = ground (arith, has-keep test m l, ==_at m a)
  where
    ==_at : (x y : ℕ) → x ≡ y → test x ≡ test y
    ==_at x y e = ap test e
