-- ===== src/Storage/Records.antt =====
-- Insertion, lookup, deletion and pins of records (src/storage/records.rs).
pub mod Stored
pub mod Invariant
pub mod Sources
pub mod Replace
pub mod Insert
pub mod Delete
use dsearch.Base.{
  ℕ, ◌*◌, Bool, true, false, ◌&&◌, not, Option, none, some, List, [], ◌∷◌, ◌++◌, length, ltb, leb,
  if◌then◌else◌, Result, ok, err, Text, text_eq, byte_len, add_u64, is_some,
}
use dsearch.Model.{ContentRecord, Serde, validate_record_size}
use dsearch.Storage.Table.{Redb}
use dsearch.Storage.Db.{
  Db, StorageConfig, StorageError, record_too_large, unreadable, quota_exceeded, Outcome,
  records_size_bytes,
}

pub data InsertResult : Type 0 where
  inserted skipped_older replaced_newer : InsertResult

module _ (R : Redb) (S : Serde) where
  -- `Some((existing_id, replace))` when a record with the same source is there.
  unfoldable pub dedup : Db R → ContentRecord → Result (Option (Text × Bool)) StorageError
  dedup db record' = elim (R.get record'.source_hash db.source_index) [
    | none ↦ ok none
    | some existing_id ↦ elim (R.get existing_id db.records) [
      | none ↦ ok none
      | some json ↦ elim (S.from_json json) [
        | none ↦ err unreadable
        | some existing ↦ ok (some (existing_id, not (leb record'.created_at existing.created_at)))
      ]
    ]
  ]

  -- The writes of `insert_record`: the record, and the index entry of its source.
  unfoldable pub put_record : Db R → ContentRecord → Db R
  put_record db record' = record db {
    records = R.insert record'.id (S.to_json record') db.records;
    source_index = R.insert record'.source_hash record'.id db.source_index;
  }

  unfoldable pub remove_existing : Db R → Text → Db R
  remove_existing db id = record db { records = R.remove id db.records }

  -- The quota check, with the size of the table as it was before the transaction.
  unfoldable pub exceeds_quota : Db R → ContentRecord → Option StorageConfig → Option ℕ
  exceeds_quota db record' none = none
  exceeds_quota db record' (some cfg) =
      if ltb 0 cfg.quota_mb
        && ltb (cfg.quota_mb * 1024 * 1024)
            (add_u64 (records_size_bytes R db) (byte_len (S.to_json record')))
      then some cfg.quota_mb
      else none

  -- The end of `insert_record`: commit, unless the quota is exceeded.
  unfoldable pub commit_insert :
      Db R → Db R → ContentRecord → Option StorageConfig → InsertResult → Outcome R InsertResult
  commit_insert db db' record' config result = elim (exceeds_quota db record' config) [
    | some quota_mb ↦ (err (quota_exceeded quota_mb), db)
    | none ↦ (ok result, db')
  ]

  unfoldable pub insert_deduped :
      Db R
      → ContentRecord
      → Option StorageConfig
      → Result (Option (Text × Bool)) StorageError
      → Outcome R InsertResult
  insert_deduped db record' config (err e) = (err e, db)
  insert_deduped db record' config (ok none) =
      commit_insert db (put_record db record') record' config inserted
  insert_deduped db record' config (ok (some (existing_id, false))) = (ok skipped_older, db)
  insert_deduped db record' config (ok (some (existing_id, true))) =
      commit_insert db (put_record (remove_existing db existing_id) record') record' config
        replaced_newer

  unfoldable pub insert_record :
      Db R → ContentRecord → Option StorageConfig → Outcome R InsertResult
  insert_record db record' config = elim (validate_record_size S record') [
    | err size ↦ (err (record_too_large size), db)
    | ok _ ↦ insert_deduped db record' config (dedup db record')
  ]

  unfoldable pub get_record : Db R → Text → Result (Option ContentRecord) StorageError
  get_record db id = elim (R.get id db.records) [
    | none ↦ ok none
    | some json ↦ elim (S.from_json json) [ none ↦ err unreadable | some r ↦ ok (some r) ]
  ]

  abbrev pub matches_schema : Option Text → ContentRecord → Bool
  matches_schema none r = true
  matches_schema (some s) r = text_eq r.schema s

  -- The scan of `list_records`; it stops once `limit` records are found, so with a limit of 0 it
  -- still returns the first.
  unfoldable pub list_scan :
      Option Text
      → ℕ
      → List (Text × Text)
      → List ContentRecord
      → Result (List ContentRecord) StorageError
  list_scan schema limit [] results = ok results
  list_scan schema limit ((k, json) ∷ l) results = elim (S.from_json json) [
    | none ↦ err unreadable
    | some r ↦
        let next = list_scan schema limit l results in
        let found = results ++ r ∷ [] in
        let more = list_scan schema limit l found in
        if matches_schema schema r
        then (if leb limit (length found) then ok found else more)
        else next
  ]

  unfoldable pub list_records : Db R → Option Text → ℕ → Result (List ContentRecord) StorageError
  list_records db schema limit = list_scan schema limit (R.entries db.records) []

  -- Deletion from the two tables: the index entry goes only if it points to this record.
  unfoldable pub drop_record : Db R → Text → Text → Db R
  drop_record db id source_hash = record db {
    records = R.remove id db.records;
    source_index = elim (R.get source_hash db.source_index) [
      | none ↦ db.source_index
      | some existing_id ↦
          if text_eq existing_id id then R.remove source_hash db.source_index else db.source_index
    ];
  }

  unfoldable pub delete_record : Db R → Text → Outcome R Bool
  delete_record db id = elim (R.get id db.records) [
    | none ↦ (ok false, db)
    | some json ↦ elim (S.from_json json) [
      | none ↦ (err unreadable, db)
      | some r ↦
          let db' = drop_record db id r.source_hash in
          (ok true, record db' { pins = R.remove id db'.pins })
    ]
  ]

  -- `now` is the clock, as it is written into the pins table.
  unfoldable pub pin_record : Db R → Text → Text → Outcome R Bool
  pin_record db id now =
      if is_some (R.get id db.records)
      then (ok true, record db { pins = R.insert id now db.pins })
      else (ok false, db)

  unfoldable pub unpin_record : Db R → Text → Outcome R Bool
  unpin_record db id = (ok (is_some (R.get id db.pins)), record db { pins = R.remove id db.pins })

  unfoldable pub is_pinned : Db R → Text → Bool
  is_pinned db id = is_some (R.get id db.pins)
