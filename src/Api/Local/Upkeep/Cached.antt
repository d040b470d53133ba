-- ===== src/Api/Local/Upkeep/Cached.antt =====
-- What the report of the caches tells (src/api/handlers.rs).
use dsearch.Base.{ℕ, ◌≡◌, refl, [], Text}
use dsearch.Search.Cache as Cache
use dsearch.Search.Cache.{SearchCache}
use dsearch.Storage.Store.{
  tier2_allow, relay_allow, prune_tier2, prune_relay, invalidate_search_cache, clear_search_cache,
  relay_record,
}
use dsearch.Storage.Store.Passed.{search_cache_len, tier2_remaining, relay_remaining}
use dsearch.Api.Local.Upkeep.{exercise_caches, handle_storage_cache}
use dsearch.Api.Platform.{Platform, StoreOf}

module _ (P : Platform) where
  -- The report does not depend on the cache of searches, and it leaves that cache empty.
  pub handle_storage_cache_blind :
      (node_id : Text) (store : StoreOf P) (cache : SearchCache) (instant : ℕ)
      → ((handle_storage_cache P node_id (record store { search_cache = cache }) instant).0
          ≡ (handle_storage_cache P node_id store instant).0)
        × ((handle_storage_cache P node_id store instant).1.search_cache.entries ≡ [])
  unfolding handle_storage_cache exercise_caches clear_search_cache invalidate_search_cache
      tier2_allow relay_allow prune_tier2 prune_relay relay_record search_cache_len tier2_remaining
      relay_remaining Cache.clear Cache.invalidate Cache.len
  handle_storage_cache_blind node_id store cache instant = (refl, refl)
