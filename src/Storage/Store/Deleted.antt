-- ===== src/Storage/Store/Deleted.antt =====
-- What a deletion leaves of the tables and the index (src/storage/mod.rs).
use dsearch.Base.{
  ◌≡◌, refl, ◌∙◌, ap, inl, inr, true, not, ◌&&◌, none, some, if◌then◌else◌, ok, Text, text_eq,
  arith, Option-cases,
}
use dsearch.Model.{ContentRecord, Serde, IsSerde}
use dsearch.Storage.Index.{deindex_record}
use dsearch.Storage.Index.Ids.{is_listed}
use dsearch.Storage.Index.Records.{is_tagged, deindex_record-is_listed}
use dsearch.Storage.Records
use dsearch.Storage.Records.Delete.{delete_found, delete_record-stored}
use dsearch.Storage.Records.Invariant.{IsValid, IsValid-same}
use dsearch.Storage.Records.Stored.{stored}
use dsearch.Storage.Db.{Db}
use dsearch.Storage.Store.{Store, delete_record, deindex}
use dsearch.Storage.Store.Signing.{SignatureBytes}
use dsearch.Storage.Table.{Redb, IsRedb}
use dsearch.Trust.Sign.{Ed25519}

get_record_found :
    (R : Redb) (S : Serde) (db : Db R) (id : Text) (r : ContentRecord)
    → stored R S db id ≡ some r
    → Records.get_record R S db id ≡ ok (some r)
unfolding stored Records.get_record
get_record_found R S db id r e = elim (Option-cases (R.get id db.records)) [
  | inl p ↦ absurd (ground arith)
  | inr (json, p) ↦ rw (p, Records.get_record) (ground arith)
]

same_index :
    (R : Redb) (S : Serde) (db : Db R) (id h : Text)
    → (Records.drop_record R S db id h).inverted_index ≡ db.inverted_index
unfolding Records.drop_record
same_index R S db id h = refl

module _ {R : Redb} {S : Serde} (E : Ed25519) (B : SignatureBytes E) (table : IsRedb R)
    (codec : IsSerde S) (s : Store R E) (v : IsValid R S s.db) where
  -- The database after the deletion of a record that is there.
  abbrev left : Text → ContentRecord → Db R
  left id r = deindex R S E B (Records.delete_record R S s.db id).1 (some r)

  delete_record_found :
      (id : Text) (r : ContentRecord)
      → stored R S s.db id ≡ some r
      → delete_record R S E B s id ≡ (ok true, record s { db = left id r })
  unfolding delete_record
  delete_record_found id r e =
      let verdict : (Records.delete_record R S s.db id).0 ≡ ok true =
        ap (λ x. x.0) (delete_found table codec v id r e) in
      rw (get_record_found R S s.db id r e, delete_record, verdict) refl

  index-left :
      (id : Text) (r : ContentRecord)
      → stored R S s.db id ≡ some r
      → (left id r).inverted_index ≡ deindex_record R s.db.inverted_index r.id r.schema r.tags
  index-left id r e =
      ap (λ t. deindex_record R t r.id r.schema r.tags)
        (ap (λ x. x.1.inverted_index) (delete_found table codec v id r e)
          ∙ same_index R S s.db id r.source_hash)

  -- Deleting a record that is there from a store with valid tables succeeds, keeps them valid, takes
  -- away that record and no other, and takes its id from the keys of its tags in the index, and
  -- nothing else.
  pub delete_record-is_listed :
      (id : Text) (r : ContentRecord)
      → stored R S s.db id ≡ some r
      → ((delete_record R S E B s id).0 ≡ ok true)
        × IsValid R S (delete_record R S E B s id).1.db
        × ((j : Text)
            → stored R S (delete_record R S E B s id).1.db j
              ≡ (if text_eq id j then none else stored R S s.db j))
        × ((key j : Text)
            → is_listed R (delete_record R S E B s id).1.db.inverted_index key j ≡ (
                is_listed R s.db.inverted_index key j
                && not (is_tagged r.schema r.tags key && text_eq id j)))
  unfolding stored
  delete_record-is_listed id r e =
      let (verdict, valid, records, pins) = delete_record-stored table codec v id in
      rw (delete_record_found id r e) (
        refl,
        IsValid-same (λ _. refl) (λ _. refl) valid,
        (λ j. records j),
        (λ key j.
            ap (λ t. is_listed R t key j) (index-left id r e)
            ∙ deindex_record-is_listed table s.db.inverted_index r.id r.schema r.tags key j
            ∙ ap
                (λ i.
                  is_listed R s.db.inverted_index key j
                  && not (is_tagged r.schema r.tags key && text_eq i j))
                (v.own_id id r e)),
      )
