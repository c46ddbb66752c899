-- ===== src/Tests/Protocol.antt =====
-- Floats of which one is not finite, and a client that sends a point.
use sqtseries.Prelude.{
  ℕ, ◌+◌, ◌*◌, ◌/◌, ltb, ◌||◌, ◌≡◌, refl, ◌≤◌, max, Bool, false, not, Option, none, some, List, [],
  ◌∷◌, ◌==◌, nat_eq, length,
}
use sqtseries.Prelude.Text.{Text}
use sqtseries.Protocol.{
  Floats, Json, accepted, unset, whole, IngestMessage, parse_ingest, get, check_name, check_value,
  check_tags, check_timestamp, check_skew, rejected, timestamp_skewed, text_fields, to_rows, place,
}
use sqtseries.Protocol.Clock.{to_rows_all, GoesUp, latest_reading, to_rows-GoesUp}
use sqtseries.Protocol.Write.{write, iso}
use sqtseries.Protocol.Ingest.{IsMessage, parse_ingest_sound}

-- the number 7 stands for a float that is not finite
abbrev floats : Floats ℕ
floats = record {
  is_finite = λ n. not (n == 7);
  of_int = λ s n. 0;
  to_ns = λ n. some (false, n * 1000000000);
  over_billion = λ s n. n / 1000000000;
  is_far = λ limit now t. ltb (now + limit) t || ltb (t + limit) now;
}

-- one text is a time
abbrev iso_to_ns : Text → Option (Bool × ℕ)
iso_to_ns [] = none
iso_to_ns (c ∷ t) = some (false, c * 1000000000)

abbrev point : Json ℕ
point = write floats (99 ∷ []) 3 ((104 ∷ [], 97 ∷ []) ∷ []) (iso (5 ∷ []))

abbrev message : IngestMessage ℕ
message = record {
  metric = 99 ∷ [];
  value = 3;
  tags = some ((104 ∷ [], 97 ∷ []) ∷ []);
  timestamp = whole false 5000000000;
}

point_accepted : parse_ingest floats iso_to_ns (some 300) 10 point ≡ accepted message
unfolding parse_ingest write get check_name check_value check_tags check_timestamp check_skew
    text_fields
point_accepted = refl

-- An hour later the same point is rejected.
point_skewed : parse_ingest floats iso_to_ns (some 300) 3610 point ≡ rejected timestamp_skewed
unfolding parse_ingest write get check_name check_value check_tags check_timestamp check_skew
    text_fields
point_skewed = refl

parse_ingest_sound_example : IsMessage floats iso_to_ns message
parse_ingest_sound_example =
    parse_ingest_sound floats iso_to_ns (some 300) 10 point message (λ s n. refl) point_accepted

-- Five seconds after the epoch, in nanoseconds, are below the limit and are taken for seconds.
early_iso_time_misread :
    place floats iso_to_ns 0 0 (whole false 5000000000) ≡ some ((false, 5000000000000000000), 0)
unfolding place
early_iso_time_misread = refl

abbrev timeless : IngestMessage ℕ
timeless = record message { timestamp = unset }

abbrev burst : List (ℕ × IngestMessage ℕ)
burst = (100, timeless) ∷ (100, timeless) ∷ (90, timeless) ∷ (200, message) ∷ (300, timeless) ∷ []

burst_times :
    to_rows_all floats iso_to_ns burst 0
    ≡ ((100, 100) ∷ (100, 101) ∷ (90, 102) ∷ (300, 300) ∷ [], 300)
unfolding to_rows_all to_rows place
burst_times = refl

to_rows-GoesUp_example :
    GoesUp floats iso_to_ns 0
      (to_rows_all floats iso_to_ns burst 0).0
      (to_rows_all floats iso_to_ns burst 0).1
    × ((to_rows_all floats iso_to_ns burst 0).1
        ≤ max 0 (latest_reading floats iso_to_ns (to_rows_all floats iso_to_ns burst 0).0)
          + length (to_rows_all floats iso_to_ns burst 0).0)
to_rows-GoesUp_example = to_rows-GoesUp floats iso_to_ns burst 0
