-- ===== src/Prelude/Distinct.antt =====
-- Lists of texts without repetition.
use sqtseries.Prelude.{
  ℕ, if◌then◌else◌, ◌+◌, ◌+◌, ◌≤◌, ◌≡◌, refl, ap, Bool, true, false, ◌&&◌, ◌||◌, not, List, [], ◌∷◌,
  ◌++◌, arith, nat_eq, string_eq, length, keep,
}
use sqtseries.Prelude.Text.{Text, text_eq, list_beq, list_beq_iff, member}

-- no text is there twice
abbrev pub AreDistinct : List Text → Type 0
AreDistinct [] = Unit
AreDistinct (t ∷ texts) = (member t texts ≡ false) × AreDistinct texts

pub member-append : (t : Text) (x y : List Text) → member t (x ++ y) ≡ (member t x || member t y)
member-append t [] y = refl
member-append t (u ∷ x) y = ground (arith, member-append t x y)

pub member-keep :
    (test : Text → Bool) (t : Text) (x : List Text)
    → member t (keep test x) ≡ (test t && member t x)
member-keep test t [] = ground arith
member-keep test t (u ∷ x) = ground (arith, member-keep test t x, list_beq_iff u t, same_test u t)
  where
    same_test : (a b : Text) → a ≡ b → test a ≡ test b
    same_test a b e = ap test e

pub keep-AreDistinct :
    (test : Text → Bool) (x : List Text) → AreDistinct x → AreDistinct (keep test x)
keep-AreDistinct test [] u = tt
keep-AreDistinct test (t ∷ x) u =
    ground (arith, keep-AreDistinct test x u.1, member-keep test t x, u.0)

pub append-AreDistinct :
    (x y : List Text)
    → AreDistinct x
    → AreDistinct y
    → ((t : Text) → member t x ≡ true → member t y ≡ false)
    → AreDistinct (x ++ y)
append-AreDistinct [] y u v apart = v
append-AreDistinct (t ∷ x) y u v apart = (
  ground (arith, member-append t x y, u.0, apart t, list_beq_iff t t),
  append-AreDistinct x y u.1 v (λ s h. ground (arith, apart s, h)),
)

abbrev pub remove : Text → List Text → List Text
remove t = keep (λ u. not (list_beq u t))

pub remove_absent : (t : Text) (l : List Text) → member t l ≡ false → remove t l ≡ l
remove_absent t [] h = refl
remove_absent t (u ∷ l) h = ground (arith, remove_absent t l, list_beq_iff u t, list_beq_iff t u)

pub length-remove : (t : Text) (l : List Text) → AreDistinct l → length l ≤ length (remove t l) + 1
length-remove t [] d = omega arith
length-remove t (u ∷ l) d =
    ground (arith, length-remove t l d.1, same_length, d.0, list_beq_iff u t)
  where
    same_length : member t l ≡ false → length (remove t l) ≡ length l
    same_length h = ap length (remove_absent t l h)

-- how often a text is in a list
abbrev pub times : Text → List Text → ℕ
times t [] = 0
times t (u ∷ texts) = (if list_beq u t then 1 else 0) + times t texts

pub times-append : (t : Text) (x y : List Text) → times t (x ++ y) ≡ times t x + times t y
times-append t [] y = omega arith
times-append t (u ∷ x) y = omega (arith, times-append t x y)
