-- ===== src/Storage/Db.antt =====
-- The database of a node, its errors and its size (src/storage/records.rs, src/storage/quota.rs,
-- src/config/mod.rs). A write transaction that is not committed is dropped, so an error returns the
-- database as it was. The input and output errors of `redb` itself are left out.
use dsearch.Base.{ℕ, Option, none, some, List, [], ◌∷◌, length, Result, Text, byte_len, add_u64}
use dsearch.Model.{ContentRecord, Serde}
use dsearch.Storage.Table.{Redb}

pub record StorageConfig : Type 0 where
  pub quota_mb : ℕ
  pub quota_action : Text
  pub tier2_max_mb : ℕ

pub record Db (R : Redb) : Type 0 where
  pub records : R.Table
  pub source_index : R.Table
  pub pins : R.Table
  pub announcements : R.Table
  pub inverted_index : R.Table

pub data StorageError : Type 0 where
  record_too_large announcement_too_large : ℕ → StorageError
  unreadable : StorageError
  quota_exceeded : ℕ → StorageError
  over_quota_after_eviction : ℕ → ℕ → StorageError
  scraper_should_pause : ℕ → StorageError
  unknown_quota_action : ℕ → Text → StorageError

-- The effect of an operation: its result, and the database that it leaves.
abbrev pub Outcome : Redb → Type 0 → Type 0
Outcome R A = Result A StorageError × Db R

module _ (R : Redb) where
  sum_sizes : ℕ → List (Text × Text) → ℕ
  sum_sizes total [] = total
  sum_sizes total ((k, v) ∷ l) = sum_sizes (add_u64 total (byte_len v)) l

  unfoldable pub records_size_bytes : Db R → ℕ
  unfolding sum_sizes
  records_size_bytes db = sum_sizes 0 (R.entries db.records)

  unfoldable pub record_count : Db R → ℕ
  record_count db = length (R.entries db.records)

module _ (S : Serde) where
  -- A stored text, read back.
  abbrev pub parse_entry : Option Text → Option ContentRecord
  parse_entry none = none
  parse_entry (some json) = S.from_json json
