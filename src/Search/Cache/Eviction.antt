-- ===== src/Search/Cache/Eviction.antt =====
-- What the cache evicts (src/search/cache.rs).
use dsearch.Base.{
  ℕ, zero, suc, ◌+◌, ◌-◌, ◌≤◌, ◌≡◌, refl, ◌⊎◌, inl, inr, none, some, List, [], ◌∷◌, Text,
  text_eq_iff, text_eq_refl, lookup, put, without, retain, length, arith, Option-cases, Distinct,
  lookup-without, without-Distinct, length-without-le, length-without-lt, retain-Distinct,
  put-Distinct,
}
use dsearch.Search.Cache.{
  CacheEntry, SearchCache, oldest, evict, live_entries, make_room, insert, is_live,
}

-- The oldest entry stands in a cache without duplicates, and no entry is older.
pub record IsOldest (l : List (Text × CacheEntry)) (e : Text × CacheEntry) : Type 0 where
  pub present : lookup e.0 l ≡ some e.1
  pub least : (k : Text) (f : CacheEntry) → lookup k l ≡ some f → e.1.inserted_at ≤ f.inserted_at

pub oldest-none : (l : List (Text × CacheEntry)) → oldest l ≡ none → l ≡ []
unfolding oldest
oldest-none [] h = refl
oldest-none (e ∷ l) h = elim (Option-cases (oldest l)) [
  | inl gone ↦ ground arith
  | inr (o, found) ↦ ground arith
]

lookup_nothing : (k : Text) (l : List (Text × CacheEntry)) → oldest l ≡ none → lookup k l ≡ none
unfolding lookup
lookup_nothing k l h = rw (oldest-none l h) refl

pub oldest-IsOldest :
    (l : List (Text × CacheEntry)) (e : Text × CacheEntry)
    → Distinct l
    → oldest l ≡ some e
    → IsOldest l e
unfolding oldest lookup
oldest-IsOldest [] e d h = record { present = ground arith; least = λ k f g. ground arith }
oldest-IsOldest ((k, v) ∷ l) (i, w) (gone, d) h = elim (Option-cases (oldest l)) [
  | inl none_left ↦ record {
    present = ground (arith, text_eq_refl k);
    least = λ j f g. ground (arith, lookup_nothing j l none_left, text_eq_iff k j);
  }
  | inr ((i', w'), found) ↦
      let first = oldest-IsOldest l (i', w') d found in
      record {
        present = ground (arith, first.present, text_eq_refl k, text_eq_iff k i');
        least = λ j f g. ground (arith, first.least j f, text_eq_iff k j);
      }
]

length_nothing : (l : List (Text × CacheEntry)) → oldest l ≡ none → length l ≡ 0
length_nothing l h = rw (oldest-none l h) refl

evict-length :
    (n max_entries : ℕ) (l : List (Text × CacheEntry))
    → Distinct l
    → length l ≤ n
    → length (evict n max_entries l) ≤ max_entries - 1
unfolding evict
evict-length zero m l d h = ground arith
evict-length (suc n) m l d h = elim (Option-cases (oldest l)) [
  | inl gone ↦ ground (arith, length_nothing l gone)
  | inr (e, found) ↦
      let first = oldest-IsOldest l e d found in
      let shorter = length-without-lt e.0 e.1 l first.present in
      let rest = evict-length n m (without e.0 l) (without-Distinct e.0 l d) (omega arith) in
      ground arith
]

pub evict-Distinct :
    (n max_entries : ℕ) (l : List (Text × CacheEntry))
    → Distinct l
    → Distinct (evict n max_entries l)
unfolding evict
evict-Distinct zero m l d = d
evict-Distinct (suc n) m l d = elim (Option-cases (oldest l)) [
  | inl gone ↦ ground arith
  | inr (e, found) ↦
      let rest = evict-Distinct n m (without e.0 l) (without-Distinct e.0 l d) in ground arith
]

-- Eviction keeps an entry as it is or removes it.
pub evict-lookup :
    (n max_entries : ℕ) (l : List (Text × CacheEntry)) (k : Text)
    → (lookup k (evict n max_entries l) ≡ lookup k l) ⊎ (lookup k (evict n max_entries l) ≡ none)
unfolding evict
evict-lookup zero m l k = inl refl
evict-lookup (suc n) m l k = elim (Option-cases (oldest l)) [
  | inl gone ↦ ground arith
  | inr (e, found) ↦ ground (arith, evict-lookup n m (without e.0 l) k, lookup-without e.0 k l)
]

-- From a list without duplicate keys, no entry that eviction removes is newer than one that it
-- keeps.
pub evict-oldest :
    (n max_entries : ℕ) (l : List (Text × CacheEntry)) (j k : Text) (e f : CacheEntry)
    → Distinct l
    → lookup j l ≡ some e
    → lookup j (evict n max_entries l) ≡ none
    → lookup k (evict n max_entries l) ≡ some f
    → e.inserted_at ≤ f.inserted_at
unfolding evict
evict-oldest zero m l j k e f d there gone kept = ground arith
evict-oldest (suc n) m l j k e f d there gone kept = elim (Option-cases (oldest l)) [
  | inl nothing ↦ ground arith
  | inr ((i, o), found) ↦
      let first = oldest-IsOldest l (i, o) d found in
      let rest = evict-oldest n m (without i l) j k e f (without-Distinct i l d) in
      ground (
        arith,
        rest,
        first.present,
        first.least k f,
        lookup-without i j l,
        lookup-without i k l,
        text_eq_iff i j,
        evict-lookup n m (without i l) k,
      )
]

-- Where the cache has no duplicate keys, an insertion leaves none, and leaves at most `max_entries`
-- entries, or one where `max_entries` is 0.
pub insert-length :
    (c : SearchCache) (now : ℕ) (key json : Text)
    → Distinct c.entries
    → Distinct (insert c now key json).entries
      × (length (insert c now key json).entries ≤ 1 + (c.max_entries - 1))
unfolding insert make_room live_entries put
insert-length c now key json d =
    let live = retain (λ e. is_live c.ttl now e.1) c.entries in
    let live_Distinct = retain-Distinct (λ e. is_live c.ttl now e.1) c.entries d in
    let small = evict-length (length live) c.max_entries live live_Distinct (omega arith) in
    (
      put-Distinct key (record { results_json = json; inserted_at = now })
          (evict (length live) c.max_entries live)
          (evict-Distinct (length live) c.max_entries live live_Distinct),
      omega (arith, small, length-without-le key (evict (length live) c.max_entries live)),
    )
