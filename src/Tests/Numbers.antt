-- ===== src/Tests/Numbers.antt =====
-- Natural numbers as values: exact arithmetic that meets the laws.
use sqtseries.Prelude.{ℕ, ◌+◌, min, max, ◌≡◌, arith, nat_eq, string_eq}
use sqtseries.Partials.{Values}

pub min_regroup : (a b c : ℕ) → min (min a b) c ≡ min a (min b c)
min_regroup a b c = omega arith

pub min_swap : (a b : ℕ) → min a b ≡ min b a
min_swap a b = omega arith

pub max_regroup : (a b c : ℕ) → max (max a b) c ≡ max a (max b c)
max_regroup a b c = omega arith

pub max_swap : (a b : ℕ) → max a b ≡ max b a
max_swap a b = omega arith

pub add_regroup : (a b c : ℕ) → (a + b) + c ≡ a + (b + c)
add_regroup a b c = omega arith

pub add_swap : (a b : ℕ) → a + b ≡ b + a
add_swap a b = omega arith

abbrev pub numbers : Values ℕ
numbers = record {
  add = λ a b. a + b;
  minimum = λ a b. min a b;
  maximum = λ a b. max a b;
  add_assoc = add_regroup;
  add_comm = add_swap;
  minimum_assoc = min_regroup;
  minimum_comm = min_swap;
  maximum_assoc = max_regroup;
  maximum_comm = max_swap;
}
