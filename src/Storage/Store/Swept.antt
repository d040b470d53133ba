-- ===== src/Storage/Store/Swept.antt =====
-- The index of tags after a sweep (src/storage/mod.rs, src/storage/expiry.rs).
use dsearch.Base.{
  ◌≡◌, refl, ◌∙◌, ap, inl, inr, ◌⊎◌, ℕ, true, false, Option, none, some, List, [], ◌∷◌, Result, ok,
  err, Text, text_eq, text_eq_refl, Option-cases, arith,
}
use dsearch.Model.{ContentRecord, Serde, validate_record_size}
use dsearch.Trust.Sign.{Ed25519}
use dsearch.Storage.Table.{Redb, IsRedb}
use dsearch.Storage.Db.{Db, StorageConfig, StorageError}
use dsearch.Storage.Records as Records
use dsearch.Storage.Records.{
  InsertResult, inserted, skipped_older, replaced_newer, dedup, exceeds_quota, commit_insert,
  insert_deduped, put_record, remove_existing, drop_record,
}
use dsearch.Storage.Index.{Indexed, done, panicked, index_key}
use dsearch.Storage.Index.Split.{IsPlain}
use dsearch.Storage.Index.Ids.{is_listed}
use dsearch.Storage.Index.Records.{is_tagged_cons}
use dsearch.Storage.Store.{
  Store, storage, index_panic, insert_signed, index_inserted, indexed_outcome, with_db,
}
use dsearch.Storage.Store.Index.{
  IsTaken, table_result, table_db, insert_signed_listed, insert_signed-is_listed,
}
use dsearch.Storage.Store.Signing.{SignatureBytes}
use dsearch.Storage.Sweep.{collect_expired, drop_records, delete_expired_records}

Result-cases {ℓ κ} :
    {A : Type ℓ} {E : Type κ} (x : Result A E) → ((a : A) × (x ≡ ok a)) ⊎ ((e : E) × (x ≡ err e))
Result-cases (ok a) = inl (a, refl)
Result-cases (err e) = inr (e, refl)

-- The sweep and the insertion of the records table leave the index of tags as it is.
module _ (R : Redb) (S : Serde) where
  drop_records-inverted_index :
      (db : Db R) (l : List (Text × Text))
      → (drop_records R S db l).inverted_index ≡ db.inverted_index
  unfolding drop_records drop_record
  drop_records-inverted_index db [] = refl
  drop_records-inverted_index db ((id, h) ∷ l) =
      drop_records-inverted_index (drop_record R S db id h) l

  delete_expired_records-inverted_index :
      (db : Db R) (now : ℕ)
      → (delete_expired_records R S db now).1.inverted_index ≡ db.inverted_index
  unfolding delete_expired_records
  delete_expired_records-inverted_index db now =
      elim (Result-cases (collect_expired R S db now (R.entries db.records))) [
        | inl (l, e) ↦ rw (e, delete_expired_records) (drop_records-inverted_index db l)
        | inr (x, e) ↦ rw (e, delete_expired_records) refl
      ]

  commit_insert-inverted_index :
      (db db' : Db R) (r : ContentRecord) (config : Option StorageConfig) (result : InsertResult)
      → db'.inverted_index ≡ db.inverted_index
      → (commit_insert R S db db' r config result).1.inverted_index ≡ db.inverted_index
  unfolding commit_insert
  commit_insert-inverted_index db db' r config result same =
      elim (Option-cases (exceeds_quota R S db r config)) [
        | inl e ↦ rw (e, commit_insert) same
        | inr (mb, e) ↦ rw (e, commit_insert) refl
      ]

  insert_deduped-inverted_index :
      (db : Db R) (r : ContentRecord) (config : Option StorageConfig)
      (found : Result (Option _) StorageError)
      → (insert_deduped R S db r config found).1.inverted_index ≡ db.inverted_index
  unfolding insert_deduped put_record remove_existing
  insert_deduped-inverted_index db r config (err e) = refl
  insert_deduped-inverted_index db r config (ok none) =
      commit_insert-inverted_index db _ r config inserted refl
  insert_deduped-inverted_index db r config (ok (some (id, false))) = refl
  insert_deduped-inverted_index db r config (ok (some (id, true))) =
      commit_insert-inverted_index db _ r config replaced_newer refl

  insert_record-inverted_index :
      (db : Db R) (r : ContentRecord) (config : Option StorageConfig)
      → (Records.insert_record R S db r config).1.inverted_index ≡ db.inverted_index
  unfolding Records.insert_record
  insert_record-inverted_index db r config = elim (Result-cases (validate_record_size S r)) [
    | inl (u, e) ↦
        rw (e, Records.insert_record) (insert_deduped-inverted_index db r config (dedup R S db r))
    | inr (x, e) ↦ rw (e, Records.insert_record) refl
  ]

module _ (R : Redb) (S : Serde) (E : Ed25519) (B : SignatureBytes E) (law : IsRedb R) where
  indexed_outcome_ok :
      (s : Store R E) (db : Db R) (o outcome : InsertResult) (x : Indexed R.Table)
      → (indexed_outcome R S E B s db o x).0 ≡ ok outcome
      → o ≡ outcome
  unfolding indexed_outcome
  indexed_outcome_ok s db o outcome (done t) h = cc
  indexed_outcome_ok s db o outcome (panicked t) h = absurd (cc)

  index_inserted_ok :
      (s : Store R E) (db : Db R) (r : ContentRecord) (o outcome : InsertResult)
      → (index_inserted R S E B s db r o).0 ≡ ok outcome
      → o ≡ outcome
  unfolding index_inserted
  index_inserted_ok s db r skipped_older outcome h = cc
  index_inserted_ok s db r inserted outcome h = indexed_outcome_ok s db inserted outcome _ h
  index_inserted_ok s db r replaced_newer outcome h =
      indexed_outcome_ok s db replaced_newer outcome _ h

  insert_signed_ok :
      (s : Store R E) (r : ContentRecord) (outcome : InsertResult)
      → (insert_signed R S E B s r).0 ≡ ok outcome
      → table_result R S s r ≡ ok outcome
  unfolding insert_signed
  insert_signed_ok s r outcome success = elim (Result-cases (table_result R S s r)) [
    | inl (o, e) ↦
        let same =
          index_inserted_ok s (table_db R S s r) r o outcome (rw (e, insert_signed) at success) in
        e ∙ ap ok same
    | inr (x, e) ↦ absurd (cc (rw (e, insert_signed) at success))
  ]

  listed_after :
      (s : Store R E) (r : ContentRecord) (outcome : InsertResult) (tag : Text) (tags : List Text)
      → r.tags ≡ tag ∷ tags
      → IsPlain r.id
      → text_eq [] r.id ≡ false
      → IsTaken outcome
      → (insert_signed R S E B s r).0 ≡ ok outcome
      → is_listed R (insert_signed R S E B s r).1.db.inverted_index (index_key r.schema tag) r.id
        ≡ true
  listed_after s r outcome tag tags t p some_id taken success =
      let key = index_key r.schema tag in
      insert_signed-is_listed R S E B law s r outcome key r.id p some_id
        (insert_signed_ok s r outcome success) taken success
      ∙ rw t (
          ground (arith, is_tagged_cons r.schema tag tags key, text_eq_refl key, text_eq_refl r.id))

  -- How the insertion of a record ends whose id is listed already: the table refuses it or skips it,
  -- or the insertion panics with the record in the table.
  abbrev pub IsStopped : Store R E → ContentRecord → Type 0
  IsStopped s r =
      ((e : StorageError) × ((insert_signed R S E B s r).0 ≡ err (storage e)))
      ⊎ (((insert_signed R S E B s r).0 ≡ ok skipped_older)
          ⊎ (((insert_signed R S E B s r).0 ≡ err index_panic)
              × ((insert_signed R S E B s r).1.db.records ≡ (table_db R S s r).records)))

  listed-IsStopped :
      (s : Store R E) (r : ContentRecord) (tag : Text) (tags : List Text)
      → r.tags ≡ tag ∷ tags
      → is_listed R s.db.inverted_index (index_key r.schema tag) r.id ≡ true
      → IsStopped s r
  unfolding insert_signed index_inserted
  listed-IsStopped s r tag tags t listed =
      let listed' =
        ap (λ u. is_listed R u (index_key r.schema tag) r.id)
          (insert_record-inverted_index R S s.db r (some s.config))
        ∙ listed in
      elim (Result-cases (table_result R S s r)) [
        | inr (x, e) ↦ inl (x, rw (e, insert_signed) refl)
        | inl (skipped_older, e) ↦ inr (inl (rw (e, insert_signed) refl))
        | inl (inserted, e) ↦
            inr (inr (insert_signed_listed R S E B law s r tag tags inserted t e tt listed'))
        | inl (replaced_newer, e) ↦
            inr (inr (insert_signed_listed R S E B law s r tag tags replaced_newer t e tt listed'))
      ]

  -- After the insertion of a record with a tag, and a nonempty id without commas, that was stored,
  -- and a sweep at any time, the insertion of a record with the same id, schema and first tag does
  -- not succeed: the records table refuses it or skips it as older, or it panics once the record is
  -- in the table.
  pub insert_signed_swept :
      (s : Store R E) (r r' : ContentRecord) (outcome : InsertResult) (tag : Text)
      (tags tags' : List Text) (now : ℕ)
      → r.tags ≡ tag ∷ tags
      → r'.tags ≡ tag ∷ tags'
      → r'.id ≡ r.id
      → r'.schema ≡ r.schema
      → IsPlain r.id
      → text_eq [] r.id ≡ false
      → IsTaken outcome
      → (insert_signed R S E B s r).0 ≡ ok outcome
      → let s' = (insert_signed R S E B s r).1 in
        IsStopped (with_db R S E B s' (delete_expired_records R S s'.db now).1) r'
  insert_signed_swept s r r' outcome tag tags tags' now t t' same_id same_schema p some_id taken
        success =
      let s' = (insert_signed R S E B s r).1 in
      let listed = listed_after s r outcome tag tags t p some_id taken success in
      listed-IsStopped (with_db R S E B s' (delete_expired_records R S s'.db now).1) r' tag tags' t'
        (rw (same_id, same_schema)
          (ap (λ u. is_listed R u (index_key r.schema tag) r.id)
              (delete_expired_records-inverted_index R S s'.db now)
            ∙ listed))
