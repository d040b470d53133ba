-- ===== src/Storage/Table.antt =====
-- Tables of the embedded database `redb`, a parameter: maps from texts to texts.
pub mod Scan
use dsearch.Base.{
  ◌≡◌, Option, none, some, List, [], ◌∷◌, if◌then◌else◌, Text, text_eq, lookup, Distinct,
}

pub record Redb : Type 1 where
  pub Table : Type 0
  pub empty : Table
  pub get : Text → Table → Option Text
  pub insert : Text → Text → Table → Table
  pub remove : Text → Table → Table
  pub entries : Table → List (Text × Text)

-- The documented behaviour: a map with one value for each key, and a scan of all its entries.
pub record IsRedb (R : Redb) : Type 0 where
  pub get_empty : (k : Text) → R.get k R.empty ≡ none
  pub get_insert :
      (k v j : Text) (t : R.Table)
      → R.get j (R.insert k v t) ≡ (if text_eq k j then some v else R.get j t)
  pub get_remove :
      (k j : Text) (t : R.Table)
      → R.get j (R.remove k t) ≡ (if text_eq k j then none else R.get j t)
  pub lookup_entries : (k : Text) (t : R.Table) → lookup k (R.entries t) ≡ R.get k t
  pub distinct_entries : (t : R.Table) → Distinct (R.entries t)
