-- ===== src/Storage/Records/Replace.antt =====
-- The dedup check of `insert_record`, and the replacement of a record by a newer one.
use dsearch.Base.{
  ◌≡◌, refl, sym, ◌∙◌, true, false, not, Option, none, some, if◌then◌else◌, leb, Text, text_eq,
  text_eq_iff, arith, Option-cases, inl, inr, ok,
}
use dsearch.Model.{ContentRecord, Serde, IsSerde}
use dsearch.Storage.Table.{Redb, IsRedb}
use dsearch.Storage.Db.{Db, StorageConfig}
use dsearch.Storage.Records.{
  inserted, skipped_older, replaced_newer, dedup, put_record, remove_existing, drop_record,
  commit_insert, insert_deduped,
}
use dsearch.Storage.Records.Stored.{
  stored, indexed, points_to, indexed-put_record, stored-drop_record, indexed-drop_record,
}
use dsearch.Storage.Records.Invariant.{
  IsValid, drop_record-IsValid, put_record-IsValid, IsValid-same,
}
use dsearch.Storage.Records.Sources.{
  by_source, HasOwnId, Found, by_source-same, by_source-put_record, by_source-drop_record,
}

module _ {R : Redb} {S : Serde} (table : IsRedb R) (codec : IsSerde S) {db : Db R}
    (v : IsValid R S db) (r : ContentRecord) where
  dedup-none : indexed R S db r.source_hash ≡ none → dedup R S db r ≡ ok none
  unfolding dedup
  dedup-none e = rw (e, dedup)

  dedup-some :
      (f : Found R S db r.source_hash)
      → dedup R S db r ≡ ok (some (f.id, not (leb r.created_at f.found.created_at)))
  unfolding dedup stored
  dedup-some f = elim (Option-cases (R.get f.id db.records)) [
    | inl e ↦ absurd (ground (arith, f.at_id))
    | inr (json, e) ↦ rw (f.at_index, dedup, e, dedup) (ground (arith, f.at_id))
  ]

  -- What `insert_record` does once the size is right, by the record that its source has.
  pub fresh :
      (config : Option StorageConfig)
      → indexed R S db r.source_hash ≡ none
      → insert_deduped R S db r config (dedup R S db r)
        ≡ commit_insert R S db (put_record R S db r) r config inserted
  unfolding insert_deduped
  fresh config e = rw (dedup-none e)

  pub not_newer :
      (config : Option StorageConfig) (f : Found R S db r.source_hash)
      → leb r.created_at f.found.created_at ≡ true
      → insert_deduped R S db r config (dedup R S db r) ≡ (ok skipped_older, db)
  unfolding insert_deduped
  not_newer config f e = rw (dedup-some f, e)

  pub newer :
      (config : Option StorageConfig) (f : Found R S db r.source_hash)
      → leb r.created_at f.found.created_at ≡ false
      → insert_deduped R S db r config (dedup R S db r)
        ≡ commit_insert R S db
            (put_record R S (remove_existing R S db f.id) r)
            r
            config
            replaced_newer
  unfolding insert_deduped
  newer config f e = rw (dedup-some f, e)

  -- Replacing: the old record of the source goes, the new one comes.
  module _ (own : HasOwnId R S db r) (f : Found R S db r.source_hash) where
    dropped : Db R
    dropped = drop_record R S db f.id r.source_hash

    same_own : (s : ContentRecord) → stored R S db f.id ≡ some s → s.source_hash ≡ r.source_hash
    same_own s e = ground (arith, f.at_id, f.source)

    dropped-IsValid : IsValid R S dropped
    unfolding dropped
    dropped-IsValid = drop_record-IsValid table codec f.id r.source_hash v same_own

    dropped_own : HasOwnId R S dropped r
    unfolding dropped
    dropped_own s p =
        let q = sym (stored-drop_record table codec db f.id r.source_hash r.id) ∙ p in
        own s (ground arith)

    dropped_index : (id : Text) → indexed R S dropped r.source_hash ≡ some id → id ≡ r.id
    unfolding dropped points_to
    dropped_index id p =
        let q = sym (indexed-drop_record table codec db f.id r.source_hash r.source_hash) ∙ p in
        absurd (
          ground
            (arith, f.at_index, text_eq_iff r.source_hash r.source_hash, text_eq_iff f.id f.id))

    replace_records :
        (id : Text)
        → R.get id (put_record R S (remove_existing R S db f.id) r).records
          ≡ R.get id (put_record R S dropped r).records
    unfolding put_record remove_existing drop_record dropped
    replace_records id = refl

    replace_index :
        (h : Text)
        → R.get h (put_record R S (remove_existing R S db f.id) r).source_index
          ≡ R.get h (put_record R S dropped r).source_index
    unfolding remove_existing dropped
    replace_index h = ground (
      arith,
      indexed-put_record table codec (remove_existing R S db f.id) r h,
      indexed-put_record table codec (drop_record R S db f.id r.source_hash) r h,
      indexed-drop_record table codec db f.id r.source_hash h,
    )

    pub replaced-IsValid : IsValid R S (put_record R S (remove_existing R S db f.id) r)
    replaced-IsValid =
        IsValid-same replace_records replace_index
          (put_record-IsValid table codec r dropped-IsValid dropped_own dropped_index)

    pub by_source-replaced :
        (h : Text)
        → by_source R S (put_record R S (remove_existing R S db f.id) r) h
          ≡ (if text_eq r.source_hash h then some r else by_source R S db h)
    unfolding dropped
    by_source-replaced h =
        let gone = rw f.source at (by_source-drop_record table codec v f.found f.id f.at_id h) in
        by_source-same S (put_record R S (drop_record R S db f.id r.source_hash) r)
          (put_record R S (remove_existing R S db f.id) r) replace_records replace_index h
        ∙ by_source-put_record table codec dropped-IsValid r dropped_own h
        ∙ ground (arith, gone)
