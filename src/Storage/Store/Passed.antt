-- ===== src/Storage/Store/Passed.antt =====
-- The operations that a store hands to its parts (src/storage/mod.rs).
use dsearch.Base.{ℕ, List, Bool, Result, Text, codes, join, as_bytes, decimal}
use dsearch.Model.{ContentRecord, Serde}
use dsearch.Node.Relay
use dsearch.Search.Cache as Cache
use dsearch.Storage.Db.{Db, StorageError}
use dsearch.Storage.Quota
use dsearch.Storage.Records
use dsearch.Storage.Store.{Store}
use dsearch.Storage.Sweep
use dsearch.Storage.Table.{Redb}
use dsearch.Storage.Tier2Limiter
use dsearch.Trust.Sign.{Ed25519}
use dsearch.Trust.Verify
use dsearch.Trust.Verify.{VerifyResult}

module _ (R : Redb) (S : Serde) (E : Ed25519) where
  -- What an operation on the database leaves, in its store.
  abbrev pub in_store {ℓ} :
      {A : Type ℓ} → Store R E → Result A StorageError × Db R → Result A StorageError × Store R E
  in_store s (result, db) = (result, record s { db = db })

  unfoldable pub pin_record : Store R E → Text → Text → Result Bool StorageError × Store R E
  pin_record s id now = in_store s (Records.pin_record R S s.db id now)

  unfoldable pub unpin_record : Store R E → Text → Result Bool StorageError × Store R E
  unpin_record s id = in_store s (Records.unpin_record R S s.db id)

  unfoldable pub is_pinned : Store R E → Text → Bool
  is_pinned s id = Records.is_pinned R S s.db id

  unfoldable pub sweep_once : Store R E → ℕ → Result (ℕ × ℕ) StorageError × Store R E
  sweep_once s now = in_store s (Sweep.sweep_once R S s.db now)

  unfoldable pub check_quota : Store R E → ℕ → Result (Unit {0}) StorageError × Store R E
  check_quota s additional_bytes = in_store s (Quota.check_quota R S s.db s.config additional_bytes)

  unfoldable pub tier2_remaining : Store R E → ℕ → Text → ℕ
  tier2_remaining s now ip = Tier2Limiter.remaining s.tier2_limiter now ip

  unfoldable pub relay_remaining : Store R E → ℕ → Text → ℕ
  relay_remaining s now peer_id = Relay.remaining s.bandwidth_account now peer_id

  unfoldable pub search_cache_len : Store R E → ℕ
  search_cache_len s = Cache.len s.search_cache

unfoldable pub verify_record_id : (List ℕ → Text) → ContentRecord → VerifyResult
verify_record_id blake3_hex r =
    Verify.verify_record_id blake3_hex r.id (as_bytes r.source_url) (as_bytes r.source_hash)
      (as_bytes r.schema) (as_bytes (join (codes ",") r.tags)) (as_bytes r.body)
      (as_bytes (decimal r.created_at))
