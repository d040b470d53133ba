-- ===== src/Storage/Store/Kept.antt =====
-- What a search leaves as it was (src/storage/mod.rs).
use dsearch.Base.{ℕ, ◌≡◌, refl, inl, inr, Option-cases, Result-cases, Text}
use dsearch.Model.{Serde}
use dsearch.Search.Cache as Cache
use dsearch.Search.Scoring.{Floats}
use dsearch.Storage.Table.{Redb}
use dsearch.Storage.Store.{Store}
use dsearch.Storage.Store.Search.{ListSerde, cache_key, cached_list, search_tables, search_records}
use dsearch.Trust.Sign.{Ed25519}

module _ (F : Floats) (to_lowercase : Text → Text) where
  module _ (R : Redb) (S : Serde) (L : ListSerde) (E : Ed25519) where
    -- Only the cache is changed.
    pub search_records-kept :
        (s : Store R E) (instant now : ℕ) (query : Text) (limit : ℕ)
        → (search_records F to_lowercase R S L E s instant now query limit).1 ≡ record s {
          search_cache =
              (search_records F to_lowercase R S L E s instant now query limit).1.search_cache;
        }
    unfolding search_records
    search_records-kept s instant now query limit =
        elim (Option-cases
          (cached_list L (Cache.get s.search_cache instant (cache_key query limit)).0)) [
            | inr (records, hit) ↦ rw (hit, search_records) refl
            | inl miss ↦
                elim (Result-cases (search_tables F to_lowercase R S L E s query limit now)) [
                  | inl (results, found) ↦ rw (miss, found, search_records) refl
                  | inr (e, failed) ↦ rw (miss, failed, search_records) refl
                ]
          ]
