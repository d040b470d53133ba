-- ===== src/Storage/Records/Sources.antt =====
-- The abstract view of the store: for each source at most one record.
use dsearch.Base.{
  ◌≡◌, refl, ◌∙◌, ap, ◌⊎◌, Option, none, some, if◌then◌else◌, Text, text_eq, text_eq_iff, arith,
  Option-cases, Bool-cases, inl, inr,
}
use dsearch.Model.{ContentRecord, Serde, IsSerde}
use dsearch.Storage.Table.{Redb, IsRedb}
use dsearch.Storage.Db.{Db, parse_entry}
use dsearch.Storage.Records.{put_record, drop_record}
use dsearch.Storage.Records.Stored.{
  stored, indexed, points_to, stored-put_record, indexed-put_record, stored-drop_record,
  indexed-drop_record,
}
use dsearch.Storage.Records.Invariant.{IsValid}

abbrev pub bind_stored : (Text → Option ContentRecord) → Option Text → Option ContentRecord
bind_stored f none = none
bind_stored f (some id) = f id

module _ (R : Redb) (S : Serde) where
  -- The record of a source: through the index, then the records table.
  unfoldable pub by_source : Db R → Text → Option ContentRecord
  by_source db h = bind_stored (stored R S db) (indexed R S db h)

  -- A record's id belongs to its source: no record of another source stands under it. Ids are
  -- digests of content that includes the source, but no insertion checks them.
  abbrev pub HasOwnId : Db R → ContentRecord → Type 0
  HasOwnId db r = (s : ContentRecord) → stored R S db r.id ≡ some s → s.source_hash ≡ r.source_hash

pub record Found (R : Redb) (S : Serde) (db : Db R) (h : Text) : Type 0 where
  pub id : Text
  pub found : ContentRecord
  pub at_index : indexed R S db h ≡ some id
  pub at_id : stored R S db id ≡ some found
  pub source : found.source_hash ≡ h

module _ {R : Redb} {S : Serde} {db : Db R} (v : IsValid R S db) where
  -- A source has no index entry, or one that leads to its record.
  pub source-cases : (h : Text) → (indexed R S db h ≡ none) ⊎ Found R S db h
  source-cases h = elim (Option-cases (indexed R S db h)) [
    | inl e ↦ inl e
    | inr (id, e) ↦
        let (r, there, s) = v.sound h id e in
        inr (record { id = id; found = r; at_index = e; at_id = there; source = s })
  ]

module _ {R : Redb} {S : Serde} (table : IsRedb R) (codec : IsSerde S) {db : Db R} where
  pub by_source-put_record :
      IsValid R S db
      → (r : ContentRecord) → HasOwnId R S db r
      → (h : Text)
      → by_source R S (put_record R S db r) h
        ≡ (if text_eq r.source_hash h then some r else by_source R S db h)
  unfolding by_source
  by_source-put_record v r own h = elim (Bool-cases (text_eq r.source_hash h)) [
    | inl e ↦
        rw (indexed-put_record table codec db r h, e)
          (ground (arith, stored-put_record table codec db r r.id, text_eq_iff r.id r.id))
    | inr ne ↦ elim (source-cases v h) [
      | inl gone ↦ rw (indexed-put_record table codec db r h, ne, gone)
      | inr f ↦
          rw (indexed-put_record table codec db r h, ne, f.at_index)
            (stored-put_record table codec db r f.id
              ∙ ground (
                arith,
                f.at_id,
                f.source,
                text_eq_iff r.id f.id,
                text_eq_iff r.source_hash h,
                own f.found,
              ))
    ]
  ]

  pub by_source-drop_record :
      IsValid R S db
      → (s : ContentRecord) (gone : Text) → stored R S db gone ≡ some s
      → (k : Text)
      → by_source R S (drop_record R S db gone s.source_hash) k
        ≡ (if text_eq s.source_hash k then none else by_source R S db k)
  unfolding by_source points_to
  by_source-drop_record v s gone there k =
      let h = s.source_hash in
      rw (indexed-drop_record table codec db gone h k) (elim (source-cases v k) [
        | inl e ↦ rw e (ground arith)
        | inr f ↦
            rw (f.at_index, v.complete gone s there)
              (ground (
                arith,
                there,
                v.complete gone s there,
                f.at_index,
                f.at_id,
                f.source,
                stored-drop_record table codec db gone h f.id,
                text_eq_iff h k,
                text_eq_iff gone f.id,
                text_eq_iff gone gone,
              ))
      ])

bind_stored-same :
    (f g : Text → Option ContentRecord) (o : Option Text)
    → ((id : Text) → f id ≡ g id)
    → bind_stored f o ≡ bind_stored g o
bind_stored-same f g none h = refl
bind_stored-same f g (some id) h = h id

pub by_source-same :
    {R : Redb} (S : Serde) (db db' : Db R)
    → ((id : Text) → R.get id db'.records ≡ R.get id db.records)
    → ((h : Text) → R.get h db'.source_index ≡ R.get h db.source_index)
    → (h : Text) → by_source R S db' h ≡ by_source R S db h
unfolding by_source stored
by_source-same {R = R} S db db' same_records same_index h = rw (same_index h) (
    bind_stored-same (stored R S db') (stored R S db) (R.get h db.source_index)
      (λ id. ap (parse_entry S) (same_records id)))
