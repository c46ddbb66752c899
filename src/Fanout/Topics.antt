-- ===== src/Fanout/Topics.antt =====
-- messaging/fanout.py: topic patterns, by the segments between the dots.
use sqtseries.Prelude.{
  ℕ, ◌≡◌, Bool, true, false, ◌&&◌, ◌||◌, List, [], ◌∷◌, ◌++◌, arith, ltb, ◌==◌, if◌then◌else◌,
  nat_eq, string_eq, length,
}
use sqtseries.Prelude.Text.{starts_with, ends_in}
use sqtseries.Fanout.{dot, star, topic_matches}
use sqtseries.Prelude.{
  ℕ, ◌≡◌, Bool, true, false, ◌&&◌, ◌||◌, List, [], ◌∷◌, ◌++◌, arith, ltb, ◌==◌, if◌then◌else◌,
  nat_eq, string_eq, length,
}
use sqtseries.Prelude.Text.{Text, list_beq, starts_with, ends_in}
use sqtseries.Fanout.{dot, star, topic_matches}

-- `text.split(".")`, its first segment and the others
unfoldable pub first_segment : Text → Text
first_segment [] = []
first_segment (c ∷ text) = let rest = first_segment text in if c == dot then [] else c ∷ rest

unfoldable pub more_segments : Text → List Text
more_segments [] = []
more_segments (c ∷ text) =
    let rest = more_segments text in if c == dot then first_segment text ∷ rest else rest

abbrev pub segments : Text → List Text
segments text = first_segment text ∷ more_segments text

-- `x` is an initial part of `y`
abbrev pub begins : List Text → List Text → Bool
begins [] y = true
begins (a ∷ x) [] = false
begins (a ∷ x) (b ∷ y) = list_beq a b && begins x y

starts_with-segments :
    (q t : Text)
    → starts_with (q ++ dot ∷ []) t
      ≡ (begins (segments q) (segments t) && ltb (length (segments q)) (length (segments t)))
unfolding starts_with first_segment more_segments
starts_with-segments [] [] = ground arith
starts_with-segments [] (b ∷ t) = ground arith
starts_with-segments (a ∷ q) [] = ground arith
starts_with-segments (a ∷ q) (b ∷ t) = ground (arith, starts_with-segments q t)

child-segments :
    (q t : Text)
    → (list_beq t q || starts_with (q ++ dot ∷ []) t) ≡ begins (segments q) (segments t)
unfolding starts_with first_segment more_segments
child-segments [] [] = ground arith
child-segments [] (b ∷ t) = ground arith
child-segments (a ∷ q) [] = ground arith
child-segments (a ∷ q) (b ∷ t) = ground (arith, child-segments q t)

ends_in-append : (c : ℕ) (q : Text) → ends_in c (q ++ c ∷ []) ≡ true
unfolding ends_in
ends_in-append c [] = ground arith
ends_in-append c (a ∷ []) = ground arith
ends_in-append c (a ∷ b ∷ q) = ends_in-append c (b ∷ q)

not_star : (q : Text) → list_beq (q ++ dot ∷ []) (star ∷ []) ≡ false
not_star [] = ground arith
not_star (a ∷ []) = ground arith
not_star (a ∷ b ∷ q) = ground arith

-- A pattern that is not `*` and does not end in a dot matches exactly the topics whose dotted
-- segments begin with its own; with a dot after it, exactly those that have more segments besides.
pub topic_matches-segments :
    (q t : Text)
    → list_beq q (star ∷ []) ≡ false
    → ends_in dot q ≡ false
    → (topic_matches q t ≡ begins (segments q) (segments t))
      × (topic_matches (q ++ dot ∷ []) t
          ≡ (begins (segments q) (segments t) && ltb (length (segments q)) (length (segments t))))
unfolding topic_matches
topic_matches-segments q t plain no_dot = (
  rw (plain, no_dot) (ground (arith, child-segments q t)),
  rw (not_star q, ends_in-append dot q) (starts_with-segments q t),
)
