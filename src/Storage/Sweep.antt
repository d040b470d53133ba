-- ===== src/Storage/Sweep.antt =====
-- Expiry of records, and the sweep (src/storage/records.rs, src/storage/expiry.rs).
pub mod Drops
pub mod Expiry
use dsearch.Base.{
  ℕ, Bool, ◌&&◌, not, none, some, List, [], ◌∷◌, length, ltb, if◌then◌else◌, Result, ok, err, ◌>>=◌,
  Text,
}
use dsearch.Model.{ContentRecord, Serde}
use dsearch.Storage.Table.{Redb}
use dsearch.Storage.Db.{Db, StorageError, unreadable, Outcome}
use dsearch.Storage.Announcements.{delete_expired_announcements}
use dsearch.Storage.Records.{drop_record, is_pinned}

module _ (R : Redb) (S : Serde) where
  -- A record without an expiry time has `expires_at` 0.
  unfoldable pub is_expired : ℕ → ContentRecord → Bool
  is_expired now r = ltb 0 r.expires_at && ltb r.expires_at now

  -- Phase 1 of the sweep: the ids and sources of the expired records that are not pinned.
  unfoldable pub collect_expired :
      Db R → ℕ → List (Text × Text) → Result (List (Text × Text)) StorageError
  collect_expired db now [] = ok []
  collect_expired db now ((k, json) ∷ l) = elim (S.from_json json) [
    | none ↦ err unreadable
    | some r ↦ do
      rest ← collect_expired db now l
      ok (if is_expired now r && not (is_pinned R S db k) then (k, r.source_hash) ∷ rest else rest)
  ]

  -- Phase 2: the deletions, one after the other.
  unfoldable pub drop_records : Db R → List (Text × Text) → Db R
  drop_records db [] = db
  drop_records db ((id, source_hash) ∷ l) = drop_records (drop_record R S db id source_hash) l

  unfoldable pub delete_expired_records : Db R → ℕ → Outcome R ℕ
  delete_expired_records db now = elim (collect_expired db now (R.entries db.records)) [
    | err e ↦ (err e, db)
    | ok to_delete ↦ (ok (length to_delete), drop_records db to_delete)
  ]

  -- One pass of the sweeper: records, then announcements.
  unfoldable pub sweep_once : Db R → ℕ → Outcome R (ℕ × ℕ)
  sweep_once db now =
      let (records_removed, db') = delete_expired_records db now in
      elim records_removed [
        | err e ↦ (err e, db')
        | ok n ↦
            let (announcements_removed, db'') = delete_expired_announcements R S db' now in
            elim announcements_removed [ err e ↦ (err e, db'') | ok m ↦ (ok (n, m), db'') ]
      ]
