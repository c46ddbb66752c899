-- ===== src/Prelude/Text.antt =====
-- Texts as lists of code points, with the string methods that the source uses.
use sqtseries.Prelude.{◌||◌}
use sqtseries.Prelude.{
  ℕ, zero, suc, ◌+◌, ◌/◌, ◌%◌, ◌≡◌, ◌↔◌, Bool, true, false, ◌&&◌, List, [], ◌∷◌, ◌++◌, arith, ltb,
  ◌==◌, if◌then◌else◌, nat_eq, string_eq, Eq,
}

abbrev pub Text : Type 0
Text = List ℕ

abbrev pub list_beq : Text → Text → Bool
list_beq [] [] = true
list_beq (a ∷ x) (b ∷ y) = a == b && list_beq x y
list_beq _ _ = false

pub list_beq_iff : (x y : Text) → (list_beq x y ≡ true) ↔ (x ≡ y)
list_beq_iff [] [] = ground arith
list_beq_iff [] (b ∷ y) = ground arith
list_beq_iff (a ∷ x) [] = ground arith
list_beq_iff (a ∷ x) (b ∷ y) = ground (arith, list_beq_iff x y)

instance abbrev pub text_eq : Eq Text
text_eq = record { beq = list_beq; beq_iff = list_beq_iff }

-- `text.startswith(prefix)`
unfoldable pub starts_with : Text → Text → Bool
starts_with [] text = true
starts_with (a ∷ prefix) [] = false
starts_with (a ∷ prefix) (b ∷ text) = a == b && starts_with prefix text

-- `text.endswith(c)` for one character
unfoldable pub ends_in : ℕ → Text → Bool
ends_in c [] = false
ends_in c (a ∷ []) = a == c
ends_in c (a ∷ b ∷ text) = ends_in c (b ∷ text)

-- the decimal digits of a number; the fuel `suc n` is enough, since every digit takes one
unfoldable pub digits : ℕ → ℕ → Text
digits zero n = []
digits (suc fuel) n =
    let rest = digits fuel (n / 10) in
    if ltb n 10 then (48 + n) ∷ [] else rest ++ (48 + n % 10) ∷ []

unfoldable pub decimal : ℕ → Text
unfolding digits
decimal n = digits (suc n) n

-- `a <= b` on strings
unfoldable pub text_le : Text → Text → Bool
text_le [] b = true
text_le (c ∷ a) [] = false
text_le (c ∷ a) (d ∷ b) = let rest = text_le a b in if c == d then rest else ltb c d

-- `text in texts`
abbrev pub member : Text → List Text → Bool
member t [] = false
member t (u ∷ texts) = list_beq u t || member t texts
