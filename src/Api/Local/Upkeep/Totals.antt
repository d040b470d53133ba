-- ===== src/Api/Local/Upkeep/Totals.antt =====
-- The counts of an import (src/api/handlers.rs).
use dsearch.Base.{
  ℕ, suc, ◌+◌, ◌≡◌, inl, inr, some, List, [], ◌∷◌, Result, ok, err, length, arith, Option-cases,
  Result-cases,
}
use dsearch.Model.{ContentRecord}
use dsearch.Sanitize.{sanitize_record}
use dsearch.Storage.Records.{InsertResult, inserted, skipped_older, replaced_newer}
use dsearch.Storage.Store.{StoreError, storage, self_verification_failed, index_panic}
use dsearch.Api.Local.Writes.{insert_into}
use dsearch.Api.Local.Upkeep.{
  Imported, count_error, count_result, count_insert, import_record, import_records,
}
use dsearch.Api.Platform.{Platform, StoreOf}

abbrev pub total : Imported → ℕ
total n = n.inserted_count + n.replaced_count + n.skipped_count + n.error_count

total-count_result : (r : InsertResult) (n : Imported) → total (count_result r n) ≡ suc (total n)
unfolding count_result
total-count_result inserted n = omega arith
total-count_result replaced_newer n = omega arith
total-count_result skipped_older n = omega arith

module _ (P : Platform) where
  total-count_insert :
      (r : Result InsertResult StoreError) (n m : Imported)
      → count_insert P r n ≡ some m
      → total m ≡ suc (total n)
  unfolding count_error
  total-count_insert (ok result) n m h =
      let same : count_result result n ≡ m = cc in rw (← same) (total-count_result result n)
  total-count_insert (err (storage e)) n m h =
      let same : count_error n ≡ m = cc in rw (← same) (omega arith)
  total-count_insert (err self_verification_failed) n m h =
      let same : count_error n ≡ m = cc in rw (← same) (omega arith)
  total-count_insert (err index_panic) n m h = absurd (cc)

  total-import_record :
      (r : ContentRecord) (n m : Imported) (store : StoreOf P)
      → (import_record P r n store).0 ≡ some m
      → total m ≡ suc (total n)
  unfolding import_record count_error
  total-import_record r n m store h = elim (Result-cases (sanitize_record r)) [
    | inr (e, dirty) ↦
        let same : count_error n ≡ m = cc (rw (dirty, import_record) at h) in
        rw (← same) (omega arith)
    | inl (clean, e) ↦
        total-count_insert (insert_into P store clean).0.0 n m (rw (e, import_record) at h)
  ]

  -- An import that does not panic counts every record exactly once, as inserted, replaced, skipped
  -- or an error, on top of what was counted before.
  pub total-import_records :
      (records : List ContentRecord) (n m : Imported) (store : StoreOf P)
      → (import_records P records n store).0 ≡ some m
      → total m ≡ total n + length records
  unfolding import_records
  total-import_records [] n m store h = let same : n ≡ m = cc in rw (← same) (omega arith)
  total-import_records (r ∷ records) n m store h =
      elim (Option-cases (import_record P r n store).0) [
        | inl panics ↦ absurd (cc (rw (panics, import_records) at h))
        | inr (k, e) ↦ omega (
          arith,
          total-import_record r n k store e,
          total-import_records records k m (import_record P r n store).1
              (rw (e, import_records) at h),
        )
      ]
