-- ===== src/Query/Buckets.antt =====
-- A bucket's partial aggregate over raw samples, whatever loop computes it.
use sqtseries.Partials.Gather.{join_assoc}
use sqtseries.Prelude.Sorted.{sorted}
use sqtseries.Prelude.{
  ℕ, ◌*◌, ◌/◌, ◌<◌, ◌≡◌, refl, sym, ap, ◌∙◌, Bool, Option, none, some, List, [], ◌∷◌, map, leb,
  if◌then◌else◌, nat_eq, string_eq,
}
use native.Mathlib.Nat.{div-div-eq-div-mul, mul-div_cancel}
use sqtseries.Schema.{hour_ns}
use sqtseries.Partials.{Values, Partial, single, partials}
use sqtseries.Partials.Gather.{gather, gather-map, gather-sorted, join}
use sqtseries.Partials.Tables.{merge, at_key, gather-merge, at_keys}
use sqtseries.Rollup.{hour_of}
use sqtseries.Query.{BucketKey, bucket_eq, bucket_of, whole, bucket_partials}

-- Buckets of whole hours do not divide an hour.
pub bucket-hour : (k ts : ℕ) → 0 < hour_ns → hour_of ts / (hour_ns * k) ≡ ts / (hour_ns * k)
bucket-hour k ts pos =
    sym (div-div-eq-div-mul (hour_of ts) hour_ns k)
    ∙ ap (λ x. x / k) (mul-div_cancel (ts / hour_ns) pos)
    ∙ div-div-eq-div-mul ts hour_ns k

module _ {V : Type 0} (A : Values V) where
  -- what a sample contributes to a bucket
  abbrev pub at_bucket : Option ℕ → BucketKey → ℕ × V → Option (Partial V)
  at_bucket bucket b x = if bucket_eq.beq (bucket_of bucket x.0) b then some (single x.1) else none

  pub whole_lem :
      (p : Partial V) (samples : List (ℕ × V))
      → some (whole A p samples)
        ≡ join (partials A) (some p) (gather (partials A) (λ x. some (single x.1)) samples)
  unfolding whole
  whole_lem p [] = refl
  whole_lem p (x ∷ samples) =
      whole_lem ((partials A).combine p (single x.1)) samples
      ∙ join_assoc (partials A) (some p) (some (single x.1))
          (gather (partials A) (λ y. some (single y.1)) samples)

  other_bucket :
      (b : ℕ) (samples : List (ℕ × V))
      → gather (partials A) (at_bucket none (some b)) samples ≡ none
  other_bucket b [] = refl
  other_bucket b (x ∷ samples) = other_bucket b samples

  pub gather-bucket_partials :
      (bucket : Option ℕ) (b : BucketKey) (samples : List (ℕ × V))
      → gather (partials A) (at_key (partials A) b) (bucket_partials A bucket samples)
        ≡ gather (partials A) (at_bucket bucket b) samples
  unfolding bucket_partials
  gather-bucket_partials none b [] = refl
  gather-bucket_partials none none (x ∷ samples) = whole_lem (single x.1) samples
  gather-bucket_partials none (some b) (x ∷ samples) = sym (other_bucket b samples)
  gather-bucket_partials (some n) b samples =
      let test : ℕ → Bool = λ key. bucket_eq.beq (some (key * n)) b in
      let parts : List (ℕ × Partial V) = map (λ x. (x.0 / n, single x.1)) samples in
      gather-map (partials A) (at_key (partials A) b) (λ (x : ℕ × Partial V). (some (x.0 * n), x.1))
        (sorted (λ (a b : ℕ × Partial V). leb a.0 b.0) (merge (partials A) [] parts))
      ∙ gather-sorted (partials A) (at_keys (partials A) test)
          (λ (a b : ℕ × Partial V). leb a.0 b.0) (merge (partials A) [] parts)
      ∙ gather-merge (partials A) test [] parts tt
      ∙ gather-map (partials A) (at_keys (partials A) test) (λ (x : ℕ × V). (x.0 / n, single x.1))
          samples
