-- ===== src/Registry/Topics.antt =====
-- messaging/connection_registry.py: the topics of a merged list, and how often each is there.
use sqtseries.Prelude.{◌∙◌}
use sqtseries.Registry.{known_rows, stored_rows}
use sqtseries.Prelude.{
  ℕ, ◌≡◌, refl, ap, ◌∙◌, ◌||◌, not, Option, List, [], ◌∷◌, ◌++◌, map, arith, nat_eq, string_eq,
  keep,
}
use sqtseries.Prelude.Text.{Text, text_eq, member}
use sqtseries.Prelude.Distinct.{
  AreDistinct, member-append, member-keep, keep-AreDistinct, append-AreDistinct,
}
use sqtseries.Registry.{TopicEntry, MergedTopic, merge_topics}

-- the topics of a merged list
abbrev pub names : List MergedTopic → List Text
names = map (λ m. m.entry.topic)

map_append : {A B : Type 0} (f : A → B) (x y : List A) → map f (x ++ y) ≡ map f x ++ map f y
map_append f [] y = refl
map_append f (a ∷ x) y = ap (◌∷◌ (f a)) (map_append f x y)

abbrev pub topics : List TopicEntry → List Text
topics = map (λ x. x.topic)

names-known_rows :
    (totals : List (Text × Option ℕ)) (known : List TopicEntry)
    → names (known_rows totals known) ≡ topics known
unfolding known_rows
names-known_rows totals [] = refl
names-known_rows totals (x ∷ known) = ap (◌∷◌ x.topic) (names-known_rows totals known)

names-stored_rows :
    (totals : List (Text × Option ℕ)) (stored : List Text)
    → names (stored_rows totals stored) ≡ stored
unfolding stored_rows
names-stored_rows totals [] = refl
names-stored_rows totals (t ∷ stored) = ap (◌∷◌ t) (names-stored_rows totals stored)

names-merge_topics :
    (known : List TopicEntry) (stored : List Text) (totals : List (Text × Option ℕ))
    → names (merge_topics known stored totals)
      ≡ topics known ++ keep (λ t. not (member t (topics known))) stored
unfolding merge_topics
names-merge_topics known stored totals =
    let new = keep (λ t. not (member t (topics known))) stored in
    map_append (λ (m : MergedTopic). m.entry.topic) (known_rows totals known)
      (stored_rows totals new)
    ∙ cc (names-known_rows totals known, names-stored_rows totals new)

-- Where the known topics are distinct and the stored ones are, every topic of either is in the
-- merged list, no other is, and none is there twice.
pub merge_topics-AreDistinct :
    (known : List TopicEntry) (stored : List Text) (totals : List (Text × Option ℕ))
    → AreDistinct (topics known)
    → AreDistinct stored
    → AreDistinct (names (merge_topics known stored totals))
      × ((t : Text)
          → member t (names (merge_topics known stored totals))
            ≡ (member t (topics known) || member t stored))
merge_topics-AreDistinct known stored totals u v =
    let new_test = λ (t : Text). not (member t (topics known)) in
    rw (names-merge_topics known stored totals) (
      append-AreDistinct (topics known) (keep new_test stored) u
          (keep-AreDistinct new_test stored v)
          (λ t h. member-keep new_test t stored ∙ ground (arith, h)),
      λ t.
          member-append t (topics known) (keep new_test stored)
          ∙ ground (arith, member-keep new_test t stored),
    )
