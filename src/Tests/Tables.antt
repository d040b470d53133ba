-- ===== src/Tests/Tables.antt =====
-- A table as a list of entries, the latest first.
use dsearch.Base.{
  lookup, Distinct, without, lookup-without, without-Distinct, ◌≡◌, refl, none, some, List, [], ◌∷◌,
  if◌then◌else◌, Text, text_eq, text_eq_iff, arith,
}
use dsearch.Storage.Table.{Redb, IsRedb}

-- Each key once, with its latest value.
unfoldable pub latest : List (Text × Text) → List (Text × Text)
latest [] = []
latest ((k, v) ∷ l) = (k, v) ∷ without k (latest l)

abbrev pub assoc_table : Redb
assoc_table = record {
  Table = List (Text × Text);
  empty = [];
  get = lookup;
  insert = λ k v t. (k, v) ∷ t;
  remove = without;
  entries = latest;
}

lookup-latest : (k : Text) (l : List (Text × Text)) → lookup k (latest l) ≡ lookup k l
unfolding lookup latest
lookup-latest k [] = refl
lookup-latest k ((j, v) ∷ l) = ground (arith, lookup-without j k (latest l), lookup-latest k l)

latest-Distinct : (l : List (Text × Text)) → Distinct (latest l)
unfolding latest
latest-Distinct [] = tt
latest-Distinct ((k, v) ∷ l) = (
  ground (arith, lookup-without k k (latest l), text_eq_iff k k),
  without-Distinct k (latest l) (latest-Distinct l),
)

lookup-empty : (k : Text) → lookup {V = Text} k [] ≡ none
unfolding lookup
lookup-empty k = refl

lookup-cons :
    (k v j : Text) (l : List (Text × Text))
    → lookup j ((k, v) ∷ l) ≡ (if text_eq k j then some v else lookup j l)
unfolding lookup
lookup-cons k v j l = refl

pub assoc_table-IsRedb : IsRedb assoc_table
assoc_table-IsRedb = record {
  get_empty = lookup-empty;
  get_insert = lookup-cons;
  get_remove = lookup-without;
  lookup_entries = lookup-latest;
  distinct_entries = latest-Distinct;
}
