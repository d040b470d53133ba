-- ===== src/Storage/Store/Index.antt =====
-- The index of tags under the operations of the store (src/storage/mod.rs).
use dsearch.Base.{
  ◌≡◌, refl, ◌∙◌, ap, inl, inr, ◌⊎◌, true, false, ◌&&◌, ◌||◌, some, List, [], ◌∷◌, Result, ok, err,
  Text, text_eq,
}
use dsearch.Model.{ContentRecord, Serde}
use dsearch.Trust.Sign.{Ed25519}
use dsearch.Storage.Table.{Redb, IsRedb}
use dsearch.Storage.Db.{Db, StorageError}
use dsearch.Storage.Records
use dsearch.Storage.Records.{InsertResult, inserted, skipped_older, replaced_newer}
use dsearch.Storage.Index.{Indexed, done, panicked, index_key, index_record}
use dsearch.Storage.Index.Split.{IsPlain}
use dsearch.Storage.Index.Ids.{is_listed}
use dsearch.Storage.Index.Records.{is_tagged, index_record-is_listed, index_record_listed}
use dsearch.Storage.Store.{Store, index_panic, insert_signed, index_inserted, indexed_outcome}
use dsearch.Storage.Store.Signing.{SignatureBytes}

-- The records table has taken the record.
abbrev pub IsTaken : InsertResult → Type 0
IsTaken inserted = Unit
IsTaken skipped_older = ⊥
IsTaken replaced_newer = Unit

-- The outcome and the database of the records table.
module _ (R : Redb) (S : Serde) {E : Ed25519} (s : Store R E) (r : ContentRecord) where
  abbrev pub table_result : Result InsertResult StorageError
  table_result = (Records.insert_record R S s.db r (some s.config)).0

  abbrev pub table_db : Db R
  table_db = (Records.insert_record R S s.db r (some s.config)).1

pub Indexed-cases :
    {T : Type 0} (x : Indexed T) → ((t : T) × (x ≡ done t)) ⊎ ((t : T) × (x ≡ panicked t))
Indexed-cases (done t) = inl (t, refl)
Indexed-cases (panicked t) = inr (t, refl)

module _ (R : Redb) (S : Serde) (E : Ed25519) (B : SignatureBytes E) (law : IsRedb R)
    (s : Store R E) (r : ContentRecord) where
  pub insert_signed_taken :
      (outcome : InsertResult)
      → table_result R S s r ≡ ok outcome
      → IsTaken outcome
      → insert_signed R S E B s r
        ≡ indexed_outcome R S E B s
            (table_db R S s r)
            outcome
            (index_record R (table_db R S s r).inverted_index r.id r.schema r.tags)
  unfolding insert_signed index_inserted
  insert_signed_taken inserted h taken = rw (h, insert_signed) refl
  insert_signed_taken skipped_older h taken = absurd taken
  insert_signed_taken replaced_newer h taken = rw (h, insert_signed) refl

  -- Where the records table takes a record and its id is listed at the key of its first tag
  -- already, the insertion panics; the record stays in the table all the same.
  pub insert_signed_listed :
      (tag : Text) (tags : List Text) (outcome : InsertResult)
      → r.tags ≡ tag ∷ tags
      → table_result R S s r ≡ ok outcome
      → IsTaken outcome
      → is_listed R (table_db R S s r).inverted_index (index_key r.schema tag) r.id ≡ true
      → ((insert_signed R S E B s r).0 ≡ err index_panic)
        × ((insert_signed R S E B s r).1.db.records ≡ (table_db R S s r).records)
  unfolding indexed_outcome
  insert_signed_listed tag tags outcome t h taken listed =
      let stop =
        ap (index_record R (table_db R S s r).inverted_index r.id r.schema) t
        ∙ index_record_listed law (table_db R S s r).inverted_index r.id r.schema tag tags listed in
      rw (insert_signed_taken outcome h taken, stop) (refl, refl)

  -- Where an insertion that the records table took succeeds, a nonempty id without commas is listed
  -- at the keys of the tags of the record, and the index is as it was otherwise.
  pub insert_signed-is_listed :
      (outcome : InsertResult) (key j : Text)
      → IsPlain r.id
      → text_eq [] r.id ≡ false
      → table_result R S s r ≡ ok outcome
      → IsTaken outcome
      → (insert_signed R S E B s r).0 ≡ ok outcome
      → is_listed R (insert_signed R S E B s r).1.db.inverted_index key j ≡ (
          is_listed R (table_db R S s r).inverted_index key j
          || is_tagged r.schema r.tags key && text_eq r.id j)
  unfolding indexed_outcome
  insert_signed-is_listed outcome key j p some_id h taken success =
      elim (Indexed-cases (index_record R (table_db R S s r).inverted_index r.id r.schema r.tags)) [
        | inl (t, finished) ↦
            rw (insert_signed_taken outcome h taken, finished)
              (index_record-is_listed law (table_db R S s r).inverted_index t r.id r.schema r.tags
                key j p some_id finished)
        | inr (t, stopped) ↦
            absurd (cc (rw (insert_signed_taken outcome h taken, stopped) at success))
      ]
