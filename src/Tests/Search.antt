-- ===== src/Tests/Search.antt =====
-- Runs of the search cache, and the theorems at them.
use dsearch.Base.{ℕ, ◌≡◌, refl, [], ◌∷◌, none, codes, lookup, lookup_empty, Distinct, text_eq}
use dsearch.Search.Cache.{SearchCache, CacheEntry}

abbrev entry : ℕ → CacheEntry
entry now = record { results_json = codes "[]"; inserted_at = now }

abbrev cache : SearchCache
cache = record {
  entries = (codes "a", entry 5) ∷ (codes "b", entry 3) ∷ [];
  ttl = 60;
  max_entries = 2;
}

other_key : lookup (codes "a") ((codes "b", entry 3) ∷ []) ≡ none
unfolding lookup text_eq
other_key = refl

abbrev cache_Distinct : Distinct cache.entries
cache_Distinct = (other_key, (lookup_empty (codes "b"), tt))
