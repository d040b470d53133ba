-- ===== src/Storage/Records/Invariant.antt =====
-- What it means that the records and the index of their sources belong together
-- (src/storage/records.rs).
use dsearch.Base.{
  ◌≡◌, sym, ◌∙◌, ap, true, false, ◌&&◌, none, some, if◌then◌else◌, Text, text_eq, text_eq_iff,
  arith, Bool-cases, inl, inr, is_some,
}
use dsearch.Model.{ContentRecord, Serde, IsSerde}
use dsearch.Storage.Table.{Redb, IsRedb}
use dsearch.Storage.Db.{Db, parse_entry}
use dsearch.Storage.Records.{put_record, drop_record}
use dsearch.Storage.Records.Stored.{
  stored, indexed, points_to, stored-put_record, indexed-put_record, stored-drop_record,
  indexed-drop_record, get-drop_record, get-put_record,
}

-- Every stored text reads back, a record stands under its own id, and the index holds exactly the
-- records, each under its source: so no two records have one source.
pub record IsValid (R : Redb) (S : Serde) (db : Db R) : Type 0 where
  pub readable :
      (id json : Text) → R.get id db.records ≡ some json → is_some (S.from_json json) ≡ true
  pub own_id : (id : Text) (r : ContentRecord) → stored R S db id ≡ some r → r.id ≡ id
  pub complete :
      (id : Text) (r : ContentRecord)
      → stored R S db id ≡ some r
      → indexed R S db r.source_hash ≡ some id
  pub sound :
      (h id : Text)
      → indexed R S db h ≡ some id
      → (r : ContentRecord) × (stored R S db id ≡ some r) × (r.source_hash ≡ h)

module _ {R : Redb} {S : Serde} (table : IsRedb R) (codec : IsSerde S) {db : Db R} where
  -- The deletion of one record. The source that is passed along is the record's own, if the record
  -- is still there.
  pub drop_record-IsValid :
      (gone h : Text)
      → IsValid R S db
      → ((r : ContentRecord) → stored R S db gone ≡ some r → r.source_hash ≡ h)
      → IsValid R S (drop_record R S db gone h)
  unfolding points_to
  drop_record-IsValid gone h v own = record {
    readable = λ id json p. v.readable id json (get-drop_record table codec db gone h id json p);
    own_id = λ id r p. v.own_id id r (kept id r p).1;
    complete = λ id r p.
        let (ne, was) = kept id r p in
        indexed-drop_record table codec db gone h r.source_hash
        ∙ still r.source_hash id ne (v.complete id r was);
    sound = λ k id p.
        let was = before k id p in
        let (r, there, e) = v.sound k id was in
        (r, stored-drop_record table codec db gone h id ∙ safe k id r p there e, e);
  }
    where
      kept :
          (id : Text) (r : ContentRecord)
          → stored R S (drop_record R S db gone h) id ≡ some r
          → (text_eq gone id ≡ false) × (stored R S db id ≡ some r)
      kept id r p =
          let q = sym (stored-drop_record table codec db gone h id) ∙ p in
          (ground arith, ground arith)

      still :
          (k id : Text)
          → text_eq gone id ≡ false
          → indexed R S db k ≡ some id
          → (if text_eq h k && points_to gone (indexed R S db h) then none else indexed R S db k)
            ≡ some id
      still k id ne q = ground (arith, text_eq_iff h k, text_eq_iff gone id, text_eq_iff id gone)

      before :
          (k id : Text)
          → indexed R S (drop_record R S db gone h) k ≡ some id
          → indexed R S db k ≡ some id
      before k id p = let q = sym (indexed-drop_record table codec db gone h k) ∙ p in ground arith

      safe :
          (k id : Text) (r : ContentRecord)
          → indexed R S (drop_record R S db gone h) k ≡ some id
          → stored R S db id ≡ some r
          → r.source_hash ≡ k
          → (if text_eq gone id then none else stored R S db id) ≡ some r
      safe k id r p there e =
          let q = sym (indexed-drop_record table codec db gone h k) ∙ p in
          ground (arith, own r, text_eq_iff gone id, text_eq_iff id gone, text_eq_iff h k)

  -- The writes of an insertion. What stands under the record's id, if anything, has its source, and
  -- what its source's index entry points to, if anything, is under its id or gone.
  pub put_record-IsValid :
      (r : ContentRecord)
      → IsValid R S db
      → ((s : ContentRecord) → stored R S db r.id ≡ some s → s.source_hash ≡ r.source_hash)
      → ((id : Text) → indexed R S db r.source_hash ≡ some id → id ≡ r.id)
      → IsValid R S (put_record R S db r)
  put_record-IsValid r v same_source same_id = record {
    readable = λ id json p. elim (get-put_record table codec db r id json p) [
      | inl e ↦ rw (e, codec.record_read r)
      | inr was ↦ v.readable id json was
    ];
    own_id = λ id s p.
        let q = sym (stored-put_record table codec db r id) ∙ p in
        ground (arith, text_eq_iff r.id id, v.own_id id s);
    complete = λ id s p.
        let q = sym (stored-put_record table codec db r id) ∙ p in
        indexed-put_record table codec db r s.source_hash
        ∙ ground (
          arith,
          text_eq_iff r.id id,
          text_eq_iff r.source_hash s.source_hash,
          v.complete id s,
          same_id id,
        );
    sound = λ k id p.
        let q = sym (indexed-put_record table codec db r k) ∙ p in
        elim (Bool-cases (text_eq r.source_hash k)) [
          | inl e ↦ (
            r,
            stored-put_record table codec db r id ∙ ground (arith, text_eq_iff r.id id),
            (text_eq_iff _ _).0 e,
          )
          | inr ne ↦
              let (s, there, e) = v.sound k id (ground arith) in
              (
                s,
                stored-put_record table codec db r id
                    ∙ ground
                        (arith, text_eq_iff r.id id, text_eq_iff r.source_hash k, same_source s),
                e,
              )
        ];
  }

-- Two databases with the same records and the same index are valid together.
pub IsValid-same :
    {R : Redb} {S : Serde} {db db' : Db R}
    → ((id : Text) → R.get id db'.records ≡ R.get id db.records)
    → ((h : Text) → R.get h db'.source_index ≡ R.get h db.source_index)
    → IsValid R S db
    → IsValid R S db'
unfolding stored
IsValid-same {S = S} same_records same_index v = record {
  readable = λ id json p. v.readable id json (sym (same_records id) ∙ p);
  own_id = λ id r p. v.own_id id r (ap (parse_entry S) (sym (same_records id)) ∙ p);
  complete = λ id r p.
      same_index r.source_hash ∙ v.complete id r (ap (parse_entry S) (sym (same_records id)) ∙ p);
  sound = λ h id p.
      let (r, there, e) = v.sound h id (sym (same_index h) ∙ p) in
      (r, ap (parse_entry S) (same_records id) ∙ there, e);
}
