-- ===== src/Storage/Records/Delete.antt =====
-- Deletion and pins.
use dsearch.Base.{
  ◌≡◌, refl, true, false, ◌&&◌, none, some, if◌then◌else◌, Text, text_eq, text_eq_iff, arith,
  is_some, Option-cases, inl, inr, ok,
}
use dsearch.Model.{ContentRecord, Serde, IsSerde}
use dsearch.Storage.Table.{Redb, IsRedb}
use dsearch.Storage.Db.{Db}
use dsearch.Storage.Records.{drop_record, delete_record, pin_record, is_pinned}
use dsearch.Storage.Records.Stored.{stored, stored-drop_record}
use dsearch.Storage.Records.Invariant.{IsValid, drop_record-IsValid, IsValid-same}

module _ {R : Redb} {S : Serde} (table : IsRedb R) (codec : IsSerde S) {db : Db R}
    (v : IsValid R S db) where
  delete_missing : (id : Text) → stored R S db id ≡ none → delete_record R S db id ≡ (ok false, db)
  unfolding delete_record stored
  delete_missing id e = elim (Option-cases (R.get id db.records)) [
    | inl p ↦ rw (p, delete_record)
    | inr (json, p) ↦ absurd (ground (arith, v.readable id json))
  ]

  abbrev pub deleted : Text → Text → Db R
  deleted id h = let db' = drop_record R S db id h in record db' { pins = R.remove id db'.pins }

  pub delete_found :
      (id : Text) (r : ContentRecord)
      → stored R S db id ≡ some r
      → delete_record R S db id ≡ (ok true, deleted id r.source_hash)
  unfolding delete_record stored
  delete_found id r e = elim (Option-cases (R.get id db.records)) [
    | inl p ↦ absurd (ground arith)
    | inr (json, p) ↦ rw (p, delete_record) (ground arith)
  ]

  pins-deleted :
      (id h j : Text)
      → is_some (R.get j (deleted id h).pins)
        ≡ (if text_eq id j && true then false else is_some (R.get j db.pins))
  unfolding drop_record
  pins-deleted id h j = ground (arith, table.get_remove id j db.pins)

  -- Deleting reports whether the record was there, keeps the database valid, and takes away that
  -- record with its pin and no other record or pin.
  pub delete_record-stored :
      (id : Text)
      → ((delete_record R S db id).0 ≡ ok (is_some (stored R S db id)))
        × IsValid R S (delete_record R S db id).1
        × ((j : Text)
            → stored R S (delete_record R S db id).1 j
              ≡ (if text_eq id j then none else stored R S db j))
        × ((j : Text)
            → is_pinned R S (delete_record R S db id).1 j
              ≡ (if text_eq id j && is_some (stored R S db id) then false else is_pinned R S db j))
  unfolding is_pinned
  delete_record-stored id = elim (Option-cases (stored R S db id)) [
    | inl e ↦
        rw (delete_missing id e, e)
          (refl, v, (λ j. ground (arith, e, text_eq_iff id j)), (λ j. ground arith))
    | inr (r, e) ↦
        rw (delete_found id r e, e)
          (
            refl,
            IsValid-same (λ _. refl) (λ _. refl)
                (drop_record-IsValid table codec id r.source_hash v (λ s p. ground arith)),
            (λ j. unfold stored in stored-drop_record table codec db id r.source_hash j),
            (λ j. pins-deleted id r.source_hash j),
          )
  ]

  -- Pinning succeeds exactly when the record is there, and pins it and nothing else; the records
  -- stay as they are.
  pub pin_record-is_pinned :
      (id now : Text)
      → ((pin_record R S db id now).0 ≡ ok (is_some (stored R S db id)))
        × IsValid R S (pin_record R S db id now).1
        × ((j : Text)
            → is_pinned R S (pin_record R S db id now).1 j
              ≡ (if text_eq id j && is_some (stored R S db id) then true else is_pinned R S db j))
  unfolding pin_record is_pinned stored
  pin_record-is_pinned id now = elim (Option-cases (R.get id db.records)) [
    | inl e ↦ rw (e, pin_record) (refl, v, λ j. ground (arith))
    | inr (json, e) ↦
        let there = v.readable id json e in
        rw (e, pin_record)
          (
            ground (arith, there),
            IsValid-same (λ _. refl) (λ _. refl) v,
            (λ j. ground (arith, there, table.get_insert id now j db.pins)),
          )
  ]
