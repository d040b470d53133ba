-- ===== src/Storage/Records/Stored.antt =====
-- The records as they are read back, under the writes that the operations make.
use dsearch.Base.{
  ◌⊎◌, Bool, ◌&&◌, text_eq_iff, ◌≡◌, false, Option, none, some, if◌then◌else◌, Text, text_eq, arith,
  Option-cases, inl, inr,
}
use dsearch.Model.{ContentRecord, Serde, IsSerde}
use dsearch.Storage.Table.{Redb, IsRedb}
use dsearch.Storage.Db.{Db, parse_entry}
use dsearch.Storage.Records.{put_record, remove_existing, drop_record}

module _ (R : Redb) (S : Serde) where
  -- The record stored under an id, if it can be read.
  unfoldable pub stored : Db R → Text → Option ContentRecord
  stored db id = parse_entry S (R.get id db.records)

  -- The index entry of a source.
  abbrev pub indexed : Db R → Text → Option Text
  indexed db source_hash = R.get source_hash db.source_index

-- Whether an index entry is that of a record.
unfoldable pub points_to : Text → Option Text → Bool
points_to gone none = false
points_to gone (some id) = text_eq id gone

module _ {R : Redb} {S : Serde} (table : IsRedb R) (codec : IsSerde S) (db : Db R) where
  pub stored-put_record :
      (r : ContentRecord) (id : Text)
      → stored R S (put_record R S db r) id ≡ (if text_eq r.id id then some r else stored R S db id)
  unfolding stored put_record
  stored-put_record r id =
      ground (arith, table.get_insert r.id (S.to_json r) id db.records, codec.record_read r)

  pub indexed-put_record :
      (r : ContentRecord) (h : Text)
      → indexed R S (put_record R S db r) h
        ≡ (if text_eq r.source_hash h then some r.id else indexed R S db h)
  unfolding put_record
  indexed-put_record r h = table.get_insert r.source_hash r.id h db.source_index

  pub stored-remove_existing :
      (old id : Text)
      → stored R S (remove_existing R S db old) id
        ≡ (if text_eq old id then none else stored R S db id)
  unfolding stored remove_existing
  stored-remove_existing old id = ground (arith, table.get_remove old id db.records)

  pub stored-drop_record :
      (gone h id : Text)
      → stored R S (drop_record R S db gone h) id
        ≡ (if text_eq gone id then none else stored R S db id)
  unfolding stored drop_record
  stored-drop_record gone h id = ground (arith, table.get_remove gone id db.records)

  pub indexed-drop_record :
      (gone h k : Text)
      → indexed R S (drop_record R S db gone h) k
        ≡ (if text_eq h k && points_to gone (indexed R S db h) then none else indexed R S db k)
  unfolding drop_record points_to
  indexed-drop_record gone h k = elim (Option-cases (R.get h db.source_index)) [
    | inl e ↦ rw (e, drop_record) (ground (arith, text_eq_iff h k))
    | inr (id, e) ↦
        rw (e, drop_record) (ground (arith, text_eq_iff h k, table.get_remove h k db.source_index))
  ]

  pub get-drop_record :
      (gone h id json : Text)
      → R.get id (drop_record R S db gone h).records ≡ some json
      → R.get id db.records ≡ some json
  unfolding drop_record
  get-drop_record gone h id json p = ground (arith, table.get_remove gone id db.records)

  pub get-remove_existing :
      (old id json : Text)
      → R.get id (remove_existing R S db old).records ≡ some json
      → R.get id db.records ≡ some json
  unfolding remove_existing
  get-remove_existing old id json p = ground (arith, table.get_remove old id db.records)

  pub get-put_record :
      (r : ContentRecord) (id json : Text)
      → R.get id (put_record R S db r).records ≡ some json
      → (json ≡ S.to_json r) ⊎ (R.get id db.records ≡ some json)
  unfolding put_record
  get-put_record r id json p = ground (arith, table.get_insert r.id (S.to_json r) id db.records)
