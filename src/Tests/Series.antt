-- ===== src/Tests/Series.antt =====
-- A registry with one series, and what a transaction that rolls back leaves in its caches.
use sqtseries.Prelude.{ℕ, ◌≡◌, refl, true, none, some, [], ◌∷◌, nat_eq, string_eq}
use sqtseries.Prelude.Text.{text_eq}
use sqtseries.Dict.{lookup}
use sqtseries.Series.{Store, SeriesKey, find, resolve_series, roll_back}
use sqtseries.Series.Resolved.{IsFaithful, resolve_series-IsFaithful}

abbrev cpu : SeriesKey
cpu = (99 ∷ [], none)

abbrev disk : SeriesKey
disk = (100 ∷ [], none)

abbrev empty : Store
empty = record { series = []; series_cache = []; id_cache = []; cache_size = 2 }

empty-IsFaithful : IsFaithful empty
unfolding lookup find
empty-IsFaithful = record {
  ids = tt;
  cache_keys = tt;
  cache_ids = tt;
  cached = λ k i h. cc;
  named = λ i k h. cc;
}

resolve_series-IsFaithful_example :
    (store' : Store) × (sid : ℕ) × (resolve_series true cpu empty ≡ some (store', sid))
    × IsFaithful store'
    × (find cpu store'.series ≡ some sid)
    × (lookup sid store'.series ≡ some cpu)
resolve_series-IsFaithful_example = resolve_series-IsFaithful cpu empty empty-IsFaithful

abbrev with_cpu : Store
with_cpu = record {
  series = (1, cpu) ∷ [];
  series_cache = (cpu, 1) ∷ [];
  id_cache = (1, cpu) ∷ [];
  cache_size = 2;
}

cpu_resolved : resolve_series true cpu empty ≡ some (with_cpu, 1)
unfolding resolve_series
cpu_resolved = refl

-- After the rollback another series gets the id 1, and the cache still gives it to the first one.
abbrev both : Store
both = record {
  series = (1, disk) ∷ [];
  series_cache = (cpu, 1) ∷ (disk, 1) ∷ [];
  id_cache = (1, disk) ∷ [];
  cache_size = 2;
}

disk_resolved : resolve_series true disk (roll_back empty with_cpu) ≡ some (both, 1)
unfolding resolve_series roll_back
disk_resolved = refl

cpu_mixed : elim (resolve_series true cpu both) as (λ _. ℕ) [ none ↦ 0 | some r ↦ r.1 ] ≡ 1
unfolding resolve_series
cpu_mixed = refl
