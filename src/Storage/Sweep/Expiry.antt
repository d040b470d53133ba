-- ===== src/Storage/Sweep/Expiry.antt =====
-- What a sweep removes (src/storage/records.rs).
use dsearch.Base.{
  lookup, Distinct, is_ok, ℕ, ◌≡◌, refl, ◌∙◌, Bool, true, false, ◌&&◌, not, Option, none, some,
  List, [], ◌∷◌, All, if◌then◌else◌, Text, text_eq_iff, arith, Option-cases, Bool-cases, inl, inr,
  Result, ok,
}
use dsearch.Model.{ContentRecord, Serde, IsSerde}
use dsearch.Storage.Table.{Redb, IsRedb}
use dsearch.Storage.Table.Scan.{entries-get}
use dsearch.Storage.Db.{StorageError, Db, parse_entry}
use dsearch.Storage.Records.{is_pinned}
use dsearch.Storage.Records.Stored.{stored}
use dsearch.Storage.Records.Invariant.{IsValid}
use dsearch.Storage.Sweep.{is_expired, collect_expired, delete_expired_records}
use dsearch.Storage.Sweep.Drops.{Owns, stored-drop_records, drop_records-IsValid, pins-drop_records}

module _ (R : Redb) (S : Serde) (db : Db R) (now : ℕ) where
  -- Whether a record that stands under an id is to go.
  unfoldable pub is_doomed : Text → ContentRecord → Bool
  is_doomed id r = is_expired R S now r && not (is_pinned R S db id)

  -- What is to be found under an id after the sweep.
  unfoldable pub kept : Text → Option ContentRecord → Option ContentRecord
  kept id none = none
  kept id (some r) = if is_doomed id r then none else some r

  doomed_source : Text → Option ContentRecord → Option Text
  doomed_source id none = none
  doomed_source id (some r) = if is_doomed id r then some r.source_hash else none

module _ {R : Redb} {S : Serde} (table : IsRedb R) (codec : IsSerde S) {db : Db R}
    (v : IsValid R S db) (now : ℕ) where
  -- What the first phase collects from the entries.
  record Collected (l : List (Text × Text)) : Type 0 where
    doomed : List (Text × Text)
    collects : collect_expired R S db now l ≡ ok doomed
    owned : All (Owns R S db) doomed
    exact :
        (id : Text) → lookup id doomed ≡ doomed_source R S db now id (parse_entry S (lookup id l))

  collect_expired-Collected :
      (l : List (Text × Text))
      → All (λ e. R.get e.0 db.records ≡ some e.1) l
      → Distinct l
      → Collected l
  unfolding collect_expired lookup doomed_source is_doomed stored
  collect_expired-Collected [] a d = record {
    doomed = [];
    collects = refl;
    owned = tt;
    exact = λ id. refl;
  }
  collect_expired-Collected ((k, json) ∷ l) (here, a) (gone, d) =
      let rest = collect_expired-Collected l a d in
      elim (Option-cases (S.from_json json)) [
        | inl e ↦ absurd (ground (arith, v.readable k json here))
        | inr (r, e) ↦ elim (Bool-cases (is_doomed R S db now k r)) [
          | inl goes ↦ record {
            doomed = (k, r.source_hash) ∷ rest.doomed;
            collects = rw (e, collect_expired, rest.collects) (collects_cons r rest.doomed goes);
            owned = (owns r e, rest.owned);
            exact = λ id. ground (arith, rest.exact id, text_eq_iff k id);
          }
          | inr stays ↦ record {
            doomed = rest.doomed;
            collects = rw (e, collect_expired, rest.collects) (collects_skip r rest.doomed stays);
            owned = rest.owned;
            exact = λ id. ground (arith, rest.exact id, rest.exact k, text_eq_iff k id);
          }
        ]
      ]
    where
      owns : (r : ContentRecord) → S.from_json json ≡ some r → Owns R S db (k, r.source_hash)
      owns r e s p = ground arith

      collects_cons :
          (r : ContentRecord) (rest : List (Text × Text))
          → is_doomed R S db now k r ≡ true
          → ◌≡◌ {A = Result (List (Text × Text)) StorageError}
              (ok (
                if is_expired R S now r && not (is_pinned R S db k)
                then (k, r.source_hash) ∷ rest
                else rest))
              (ok ((k, r.source_hash) ∷ rest))
      collects_cons r rest h = ground arith

      collects_skip :
          (r : ContentRecord) (rest : List (Text × Text))
          → is_doomed R S db now k r ≡ false
          → ◌≡◌ {A = Result (List (Text × Text)) StorageError}
              (ok (
                if is_expired R S now r && not (is_pinned R S db k)
                then (k, r.source_hash) ∷ rest
                else rest))
              (ok rest)
      collects_skip r rest h = ground arith

  all-Collected : Collected (R.entries db.records)
  all-Collected =
      collect_expired-Collected (R.entries db.records) (entries-get table db.records)
        (table.distinct_entries db.records)

  -- The sweep succeeds on a valid database and keeps it valid. Under every id it leaves what was
  -- there, except a record that has an expiry time before `now` and no pin: that is gone. The pins
  -- stay.
  pub delete_expired_records-kept :
      (is_ok (delete_expired_records R S db now).0 ≡ true)
      × IsValid R S (delete_expired_records R S db now).1
      × ((id : Text)
          → stored R S (delete_expired_records R S db now).1 id
            ≡ kept R S db now id (stored R S db id))
      × ((delete_expired_records R S db now).1.pins ≡ db.pins)
  unfolding delete_expired_records stored kept doomed_source
  delete_expired_records-kept =
      let c = all-Collected in
      rw (c.collects, delete_expired_records)
        (
          refl,
          drop_records-IsValid table codec db c.doomed c.owned v,
          (λ id.
              stored-drop_records table codec db c.doomed id
              ∙ rw (c.exact id, table.lookup_entries id db.records) (ground arith)),
          pins-drop_records table codec db c.doomed,
        )
