-- ===== src/Tests/Agg.antt =====
-- Downsampling and gap filling of four samples.
use sqtseries.Prelude.{
  ℕ, ◌+◌, ◌-◌, ◌*◌, ◌/◌, ◌≡◌, refl, some, List, [], ◌∷◌, map, arith, leb, nat_eq, string_eq, length,
}
use sqtseries.Prelude.Sorted.{has}
use sqtseries.Agg.{Floats, bucket_key, downsample, gap_fill_linear, aggregate_series}
use sqtseries.Agg.Buckets.{IsAscending, values_at, downsample_exact}
use sqtseries.Prelude.{◌+◌, ◌≡◌}
use sqtseries.Agg.Gaps.{Part, IsOrdered, IsFine, narrow_gaps, gap_fill_linear_lem}

-- numbers in place of floats; 999 is the one that is none
abbrev pub floats : Floats ℕ
floats = record {
  nan = 999;
  of_count = λ n. n;
  add = λ a b. a + b;
  over = λ a n. a / n;
  le = λ a b. leb a b;
  mix = λ k a b. (a * (100 - k) + b * k) / 100;
}

abbrev samples : List (ℕ × ℕ)
samples = (3, 10) ∷ (12, 20) ∷ (14, 30) ∷ (33, 40) ∷ []

downsample_exact_example :
    (bs : List ℕ) × IsAscending bs
    × ((b : ℕ) → has b bs ≡ has b (map (bucket_key 10) samples))
    × (downsample 10 length samples
        ≡ map {B = ℕ × ℕ} (λ b. (b * 10, length (values_at 10 b samples))) bs)
downsample_exact_example = downsample_exact 10 length samples

gap_fill_linear_lem_example :
    Part samples (gap_fill_linear floats 10 samples)
    × IsOrdered (gap_fill_linear floats 10 samples)
    × IsFine floats 10 (gap_fill_linear floats 10 samples)
    × (length (gap_fill_linear floats 10 samples) ≡ length samples + narrow_gaps floats 10 samples)
gap_fill_linear_lem_example =
    gap_fill_linear_lem floats 10 samples (omega arith, (omega arith, (omega arith, tt)))

filled :
    gap_fill_linear floats 10 samples
    ≡ (3, 10) ∷ (7, 15) ∷ (12, 20) ∷ (13, 25) ∷ (14, 30) ∷ (33, 40) ∷ []
unfolding gap_fill_linear
filled = refl

-- Nothing to count is 0, unless the name is in capitals.
counted_nothing : aggregate_series floats (99 ∷ 111 ∷ 117 ∷ 110 ∷ 116 ∷ []) [] ≡ some 0
unfolding aggregate_series
counted_nothing = refl

counted_capitals : aggregate_series floats (67 ∷ 79 ∷ 85 ∷ 78 ∷ 84 ∷ []) [] ≡ some 999
unfolding aggregate_series
counted_capitals = refl
