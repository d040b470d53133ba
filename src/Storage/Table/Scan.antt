-- ===== src/Storage/Table/Scan.antt =====
-- Scans of a table.
use dsearch.Base.{
  lookup, Distinct, ◌≡◌, sym, ◌∙◌, none, some, List, [], ◌∷◌, All, All-map, Text, text_eq_iff,
  text_eq_refl, arith,
}
use dsearch.Storage.Table.{Redb, IsRedb}

lookup_behind {ℓ} :
    {V : Type ℓ} (k j : Text) (v w : V) (l : List (Text × V))
    → lookup k l ≡ none
    → lookup j l ≡ some w
    → lookup j ((k, v) ∷ l) ≡ some w
unfolding lookup
lookup_behind k j v w l gone there = ground (arith, text_eq_iff k j)

lookup_front {ℓ} :
    {V : Type ℓ} (k : Text) (v : V) (l : List (Text × V)) → lookup k ((k, v) ∷ l) ≡ some v
unfolding lookup
lookup_front k v l = rw (text_eq_refl k)

-- In a list with distinct keys every entry is found under its key.
pub Distinct-lookup {ℓ} :
    {V : Type ℓ} (l : List (Text × V)) → Distinct l → All (λ e. lookup e.0 l ≡ some e.1) l
Distinct-lookup [] d = tt
Distinct-lookup ((k, v) ∷ l) (gone, d) = (
  lookup_front k v l,
  All-map l (λ e p. lookup_behind k e.0 v e.1 l gone p) (Distinct-lookup l d),
)

pub entries-get :
    {R : Redb} → IsRedb R → (t : R.Table) → All (λ e. R.get e.0 t ≡ some e.1) (R.entries t)
entries-get {R} law t =
    All-map (R.entries t) (λ e p. sym (law.lookup_entries e.0 t) ∙ p)
      (Distinct-lookup (R.entries t) (law.distinct_entries t))
