-- ===== src/Storage/Store.antt =====
-- The store: what coordinates the tables, the index of tags and the signatures
-- (src/storage/mod.rs). Its searches are in the module Search of this folder.
pub mod Signing
pub mod Signed
pub mod Index
pub mod Swept
pub mod Search
pub mod Searched
pub mod Kept
pub mod Passed
pub mod Deleted
use dsearch.Base.{
  ℕ, ◌*◌, Bool, true, false, Option, none, some, List, [], ◌∷◌, if◌then◌else◌, Result, ok, err,
  Text,
}
use dsearch.Model.{ContentRecord, Announcement, Serde}
use dsearch.Storage.Table.{Redb}
use dsearch.Storage.Db.{Db, StorageConfig, StorageError}
use dsearch.Storage.Records
use dsearch.Storage.Records.{InsertResult, inserted, skipped_older, replaced_newer}
use dsearch.Storage.Announcements
use dsearch.Storage.Index as TagIndex
use dsearch.Storage.Index.{Indexed, done, panicked}
use dsearch.Storage.Store.Signing.{SignatureBytes, sign_if_needed, sign_announcement_if_needed}
use dsearch.Storage.Tier2Limiter
use dsearch.Storage.Tier2Limiter.{Tier2Limiter}
use dsearch.Node.Relay
use dsearch.Node.Relay.{RelayBandwidthAccount}
use dsearch.Search.Cache as Cache
use dsearch.Search.Cache.{SearchCache}
use dsearch.Trust.Sign.{Ed25519}

-- The error of a table, a signature that does not verify, or a panic in the index.
pub data StoreError : Type 0 where
  storage : StorageError → StoreError
  self_verification_failed index_panic : StoreError

pub record Store (R : Redb) (E : Ed25519) : Type 0 where
  pub db : Db R
  pub config : StorageConfig
  pub signing_key : Option E.SigningKey
  pub search_cache : SearchCache
  pub tier2_limiter : Tier2Limiter
  pub bandwidth_account : RelayBandwidthAccount

-- Instants and windows are in nanoseconds.
abbrev pub seconds : ℕ → ℕ
seconds n = n * 1000000000

-- A new store. The relay limit of 100 megabits per second comes to 12.5 million bytes in a second.
unfoldable pub new : {R : Redb} → (E : Ed25519) → Db R → StorageConfig → Store R E
new E db config = record {
  db = db;
  config = config;
  signing_key = none;
  search_cache = Cache.new (seconds 30) 256;
  tier2_limiter = Tier2Limiter.new 100 (seconds 60);
  bandwidth_account = record {
    accounts = [];
    limit_bytes_per_window = 12500000;
    window = seconds 1;
  };
}

module _ (R : Redb) (S : Serde) (E : Ed25519) (B : SignatureBytes E) where
  abbrev pub StoreOutcome : Type 0 → Type 0
  StoreOutcome A = Result A StoreError × Store R E

  unfoldable pub set_signing_key : Store R E → E.SigningKey → Store R E
  set_signing_key s key = record s { signing_key = some key }

  abbrev pub with_db : Store R E → Db R → Store R E
  with_db s db = record s { db = db }

  -- What `index_record` leaves: a table, and maybe a panic.
  unfoldable pub indexed_outcome :
      Store R E → Db R → InsertResult → Indexed R.Table → StoreOutcome InsertResult
  indexed_outcome s db result (done t) = (ok result, with_db s (record db { inverted_index = t }))
  indexed_outcome s db result (panicked t) =
      (err index_panic, with_db s (record db { inverted_index = t }))

  unfoldable pub index_inserted :
      Store R E → Db R → ContentRecord → InsertResult → StoreOutcome InsertResult
  unfolding indexed_outcome
  index_inserted s db r skipped_older = (ok skipped_older, with_db s db)
  index_inserted s db r inserted =
      indexed_outcome s db inserted (TagIndex.index_record R db.inverted_index r.id r.schema r.tags)
  index_inserted s db r replaced_newer =
      indexed_outcome s db replaced_newer
        (TagIndex.index_record R db.inverted_index r.id r.schema r.tags)

  -- The records table, and then the index.
  unfoldable pub insert_signed : Store R E → ContentRecord → StoreOutcome InsertResult
  insert_signed s r =
      let (result, db) = Records.insert_record R S s.db r (some s.config) in
      elim result [
        | err e ↦ (err (storage e), with_db s db)
        | ok outcome ↦ index_inserted s db r outcome
      ]

  -- The record comes back with its signature.
  unfoldable pub insert_record :
      Store R E → ContentRecord → StoreOutcome InsertResult × ContentRecord
  insert_record s r = elim (sign_if_needed E B s.signing_key r) [
    | none ↦ ((err self_verification_failed, s), r)
    | some signed ↦ (insert_signed s signed, signed)
  ]

  unfoldable pub get_record : Store R E → Text → Result (Option ContentRecord) StorageError
  get_record s id = Records.get_record R S s.db id

  unfoldable pub list_records :
      Store R E → Option Text → ℕ → Result (List ContentRecord) StorageError
  list_records s schema limit = Records.list_records R S s.db schema limit

  abbrev pub deindex : Db R → Option ContentRecord → Db R
  deindex db none = db
  deindex db (some r) = record db {
    inverted_index = TagIndex.deindex_record R db.inverted_index r.id r.schema r.tags;
  }

  unfoldable pub delete_record : Store R E → Text → StoreOutcome Bool
  delete_record s id = elim (Records.get_record R S s.db id) [
    | err e ↦ (err (storage e), s)
    | ok r ↦
        let (result, db) = Records.delete_record R S s.db id in
        elim result [
          | err e ↦ (err (storage e), with_db s db)
          | ok deleted ↦ (ok deleted, with_db s (if deleted then deindex db r else db))
        ]
  ]

  unfoldable pub insert_announcement :
      Store R E → Announcement → StoreOutcome (Unit {0}) × Announcement
  insert_announcement s a = elim (sign_announcement_if_needed E B s.signing_key a) [
    | none ↦ ((err self_verification_failed, s), a)
    | some signed ↦
        let (result, db) = Announcements.insert_announcement R S s.db signed in
        (
          elim result as (λ x. StoreOutcome (Unit {0})) [
            | err e ↦ (err (storage e), with_db s db)
            | ok u ↦ (ok u, with_db s db)
          ],
          signed,
        )
  ]

  unfoldable pub search_index : Store R E → Text → Option Text → Option Text → List Text
  search_index s schema tag_key tag_value =
      TagIndex.search_index R s.db.inverted_index schema tag_key tag_value

  unfoldable pub tier2_allow : Store R E → ℕ → Text → Bool × Store R E
  tier2_allow s now ip =
      let (allowed, limiter) = Tier2Limiter.allow s.tier2_limiter now ip in
      (allowed, record s { tier2_limiter = limiter })

  unfoldable pub relay_allow : Store R E → ℕ → Text → ℕ → Bool × Store R E
  relay_allow s now peer_id bytes =
      let (allowed, account) = Relay.allow s.bandwidth_account now peer_id bytes in
      (allowed, record s { bandwidth_account = account })

  unfoldable pub relay_record : Store R E → ℕ → Text → ℕ → Store R E
  relay_record s now peer_id bytes = record s {
    bandwidth_account = Relay.record_bytes s.bandwidth_account now peer_id bytes;
  }

  unfoldable pub prune_tier2 : Store R E → ℕ → Store R E
  prune_tier2 s now = record s { tier2_limiter = Tier2Limiter.prune_expired s.tier2_limiter now }

  unfoldable pub prune_relay : Store R E → ℕ → Store R E
  prune_relay s now = record s { bandwidth_account = Relay.prune_expired s.bandwidth_account now }

  unfoldable pub invalidate_search_cache : Store R E → Text → Store R E
  invalidate_search_cache s key = record s { search_cache = Cache.invalidate s.search_cache key }

  unfoldable pub clear_search_cache : Store R E → Store R E
  clear_search_cache s = record s { search_cache = Cache.clear s.search_cache }
