-- ===== src/Storage/Sweep/Drops.antt =====
-- A run of deletions, one after the other, as the sweep and the eviction make it.
use dsearch.Base.{
  All-map, lookup, ◌≡◌, refl, sym, ◌∙◌, none, some, List, [], ◌∷◌, All, if◌then◌else◌, Text, arith,
  is_some,
}
use dsearch.Model.{ContentRecord, Serde, IsSerde}
use dsearch.Storage.Table.{Redb, IsRedb}
use dsearch.Storage.Db.{Db}
use dsearch.Storage.Records.{drop_record}
use dsearch.Storage.Records.Stored.{stored, stored-drop_record}
use dsearch.Storage.Records.Invariant.{IsValid, drop_record-IsValid}
use dsearch.Storage.Sweep.{drop_records}

-- A deletion names the source of the record, if the record is there.
abbrev pub Owns : (R : Redb) (S : Serde) → Db R → Text × Text → Type 0
Owns R S db (id, h) = (r : ContentRecord) → stored R S db id ≡ some r → r.source_hash ≡ h

module _ {R : Redb} {S : Serde} (table : IsRedb R) (codec : IsSerde S) where
  pub stored-drop_records :
      (db : Db R) (l : List (Text × Text)) (id : Text)
      → stored R S (drop_records R S db l) id
        ≡ (if is_some (lookup id l) then none else stored R S db id)
  unfolding drop_records lookup
  stored-drop_records db [] id = refl
  stored-drop_records db ((gone, h) ∷ l) id =
      stored-drop_records (drop_record R S db gone h) l id
      ∙ ground (arith, stored-drop_record table codec db gone h id)

  still-Owns :
      (db : Db R) (gone h : Text) (e : Text × Text)
      → Owns R S db e
      → Owns R S (drop_record R S db gone h) e
  still-Owns db gone h (id, k) own r p =
      let q = sym (stored-drop_record table codec db gone h id) ∙ p in own r (ground arith)

  pub drop_records-IsValid :
      (db : Db R) (l : List (Text × Text))
      → All (Owns R S db) l
      → IsValid R S db
      → IsValid R S (drop_records R S db l)
  unfolding drop_records
  drop_records-IsValid db [] own v = v
  drop_records-IsValid db ((gone, h) ∷ l) (here, own) v =
      drop_records-IsValid (drop_record R S db gone h) l (All-map l (still-Owns db gone h) own)
        (drop_record-IsValid table codec gone h v here)

  pub pins-drop_records :
      (db : Db R) (l : List (Text × Text)) → (drop_records R S db l).pins ≡ db.pins
  unfolding drop_records drop_record
  pins-drop_records db [] = refl
  pins-drop_records db ((gone, h) ∷ l) = pins-drop_records (drop_record R S db gone h) l
