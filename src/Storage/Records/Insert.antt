-- ===== src/Storage/Records/Insert.antt =====
-- What `insert_record` does with the record of a source (src/storage/records.rs).
use dsearch.Base.{
  ℕ, ◌<◌, byte_len, ◌≡◌, refl, ◌∙◌, ◌⊎◌, true, false, Option, none, some, if◌then◌else◌, leb, Text,
  text_eq, text_eq_iff, arith, Option-cases, Bool-cases, inl, inr, Result, ok, err,
}
use dsearch.Model.{ContentRecord, Serde, IsSerde, max_record_size, validate_record_size}
use dsearch.Storage.Table.{Redb, IsRedb}
use dsearch.Storage.Db.{Db, StorageConfig, StorageError, Outcome, record_too_large, quota_exceeded}
use dsearch.Storage.Records.{
  InsertResult, inserted, skipped_older, replaced_newer, dedup, put_record, remove_existing,
  exceeds_quota, commit_insert, insert_deduped, insert_record,
}
use dsearch.Storage.Records.Stored.{indexed}
use dsearch.Storage.Records.Invariant.{IsValid, put_record-IsValid}
use dsearch.Storage.Records.Sources.{by_source, HasOwnId, Found, source-cases, by_source-put_record}
use dsearch.Storage.Records.Replace.{fresh, not_newer, newer, replaced-IsValid, by_source-replaced}

-- Which of two records of one source is kept: the newer, and the one already there on a tie.
unfoldable pub newest : Option ContentRecord → ContentRecord → ContentRecord
newest none r = r
newest (some old) r = if leb r.created_at old.created_at then old else r

-- What the insertion reports.
unfoldable pub verdict : Option ContentRecord → ContentRecord → InsertResult
verdict none r = inserted
verdict (some old) r = if leb r.created_at old.created_at then skipped_older else replaced_newer

module _ {R : Redb} {S : Serde} (table : IsRedb R) (codec : IsSerde S) {db : Db R}
    (v : IsValid R S db) (r : ContentRecord) where
  by_source-none : indexed R S db r.source_hash ≡ none → by_source R S db r.source_hash ≡ none
  unfolding by_source
  by_source-none e = rw e

  by_source-found : (f : Found R S db r.source_hash) → by_source R S db r.source_hash ≡ some f.found
  unfolding by_source
  by_source-found f = rw f.at_index f.at_id

  -- The five ways in which an insertion ends.
  insert_record_outcomes :
      (P : Outcome R InsertResult → Type 0) (config : Option StorageConfig)
      → ((size : ℕ) → validate_record_size S r ≡ err size → P (err (record_too_large size), db))
      → ((mb : ℕ) → exceeds_quota R S db r config ≡ some mb → P (err (quota_exceeded mb), db))
      → (indexed R S db r.source_hash ≡ none → P (ok inserted, put_record R S db r))
      → ((f : Found R S db r.source_hash)
          → leb r.created_at f.found.created_at ≡ true
          → P (ok skipped_older, db))
      → ((f : Found R S db r.source_hash)
          → leb r.created_at f.found.created_at ≡ false
          → P (ok replaced_newer, put_record R S (remove_existing R S db f.id) r))
      → P (insert_record R S db r config)
  unfolding insert_record commit_insert
  insert_record_outcomes P config too_large over new_source older replaced =
      go (validate_record_size S r) refl
    where
      commit :
          (db' : Db R) (result : InsertResult)
          → P (ok result, db')
          → P (commit_insert R S db db' r config result)
      commit db' result p = elim (Option-cases (exceeds_quota R S db r config)) [
        | inl e ↦ rw (e, commit_insert) p
        | inr (mb, e) ↦ rw (e, commit_insert) (over mb e)
      ]

      accepted : P (insert_deduped R S db r config (dedup R S db r))
      accepted = elim (source-cases v r.source_hash) [
        | inl e ↦ rw (fresh table codec v r config e) (commit _ _ (new_source e))
        | inr f ↦ elim (Bool-cases (leb r.created_at f.found.created_at)) [
          | inl e ↦ rw (not_newer table codec v r config f e) (older f e)
          | inr e ↦ rw (newer table codec v r config f e) (commit _ _ (replaced f e))
        ]
      ]

      go :
          (w : Result (Unit {0}) ℕ)
          → validate_record_size S r ≡ w
          → P (insert_record R S db r config)
      go (err size) e = rw (e, insert_record) (too_large size e)
      go (ok u) e = rw (e, insert_record) accepted

  -- A failed insertion into a valid store leaves it as it was, and fails for one of two reasons:
  -- the record is over 1 MB, or the quota would be exceeded.
  pub insert_record_fails :
      (config : Option StorageConfig) (e : StorageError)
      → (insert_record R S db r config).0 ≡ err e
      → ((insert_record R S db r config).1 ≡ db)
        × (((e ≡ record_too_large (byte_len (S.to_json r)))
              × (max_record_size < byte_len (S.to_json r)))
            ⊎ ((mb : ℕ) × (e ≡ quota_exceeded mb) × (exceeds_quota R S db r config ≡ some mb)))
  unfolding validate_record_size
  insert_record_fails config e =
      insert_record_outcomes
        (λ o.
          o.0 ≡ err e
          → (o.1 ≡ db)
            × (((e ≡ record_too_large (byte_len (S.to_json r)))
                  × (max_record_size < byte_len (S.to_json r)))
                ⊎ ((mb : ℕ) × (e ≡ quota_exceeded mb) × (exceeds_quota R S db r config ≡ some mb))))
        config (λ size w p. (refl, inl (ground arith)))
        (λ mb w p. (refl, inr (mb, ground arith, w))) (λ _ p. absurd (cc)) (λ _ _ p. absurd (cc))
        (λ _ _ p. absurd (cc))

  module _ (own : HasOwnId R S db r) where
    put_fresh-IsValid : indexed R S db r.source_hash ≡ none → IsValid R S (put_record R S db r)
    put_fresh-IsValid e = put_record-IsValid table codec r v own (λ id p. absurd (ground arith))

    -- An insertion keeps a valid store valid, whatever it returns, if no record of another source
    -- stands under the id of the new record. Valid means: every stored text reads back, a record
    -- stands under its own id, and the source index holds exactly the records, each under its
    -- source.
    pub insert_record-IsValid :
        (config : Option StorageConfig) → IsValid R S (insert_record R S db r config).1
    insert_record-IsValid config =
        insert_record_outcomes (λ o. IsValid R S o.1) config (λ _ _. v) (λ _ _. v) put_fresh-IsValid
          (λ _ _. v) (λ f _. replaced-IsValid table codec v r own f)

    -- In a valid store, if no record of another source stands under the id of the new record, a
    -- successful insertion implements a map from sources to records: it reports whether the source
    -- was new, had an older or a newer record; the source then has the newer of the two, on a tie
    -- the one that was there; and no other source has changed.
    pub insert_record-newest :
        (config : Option StorageConfig) (result : InsertResult)
        → (insert_record R S db r config).0 ≡ ok result
        → (result ≡ verdict (by_source R S db r.source_hash) r)
          × ((h : Text)
              → by_source R S (insert_record R S db r config).1 h ≡ (
                  if text_eq r.source_hash h
                  then some (newest (by_source R S db r.source_hash) r)
                  else by_source R S db h))
    unfolding newest verdict
    insert_record-newest config result =
        insert_record_outcomes
          (λ o.
            o.0 ≡ ok result
            → (result ≡ verdict (by_source R S db r.source_hash) r)
              × ((h : Text)
                  → by_source R S o.1 h ≡ (
                      if text_eq r.source_hash h
                      then some (newest (by_source R S db r.source_hash) r)
                      else by_source R S db h)))
          config (λ _ _ p. absurd (cc)) (λ _ _ p. absurd (cc))
          (λ e p. (
            ground (arith, by_source-none e),
            λ h. by_source-put_record table codec v r own h ∙ rw (by_source-none e),
          ))
          (λ f e p. (
            ground (arith, by_source-found f),
            λ h. ground (arith, by_source-found f, text_eq_iff r.source_hash h),
          ))
          (λ f e p. (
            ground (arith, by_source-found f),
            λ h. by_source-replaced table codec v r own f h ∙ rw (by_source-found f, newest, e),
          ))
