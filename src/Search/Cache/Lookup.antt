-- ===== src/Search/Cache/Lookup.antt =====
-- What the cache returns (src/search/cache.rs).
use dsearch.Base.{
  without-Distinct, ℕ, ◌-◌, ◌≡◌, ◌⊎◌, inl, inr, Option, none, some, ltb, if◌then◌else◌, refl, Text,
  text_eq, text_eq_iff, text_eq_refl, ap, sym, ◌∙◌, lookup, retain, length, arith, Option-cases,
  Bool-cases, Distinct, lookup-retain, lookup-put,
}
use dsearch.Search.Cache.{CacheEntry, SearchCache, get, live_entries, make_room, insert, is_live}
use dsearch.Search.Cache.Eviction.{evict-lookup}

-- The answer of `get` is that of the entry, if it is live.
abbrev live_answer : ℕ → ℕ → Option CacheEntry → Option Text
live_answer ttl now none = none
live_answer ttl now (some e) = if is_live ttl now e then some e.results_json else none

get-answer :
    (c : SearchCache) (now : ℕ) (key : Text)
    → (get c now key).0 ≡ live_answer c.ttl now (lookup key c.entries)
unfolding get
get-answer c now key = elim (Option-cases (lookup key c.entries)) [
  | inl gone ↦ ground arith
  | inr (e, found) ↦ ground arith
]

make_room-lookup :
    (c : SearchCache) (now : ℕ) (k : Text)
    → Distinct c.entries
    → (lookup k (make_room c now) ≡ lookup k c.entries) ⊎ (lookup k (make_room c now) ≡ none)
unfolding make_room live_entries
make_room-lookup c now k d =
    let live = retain (λ e. is_live c.ttl now e.1) c.entries in
    elim (Option-cases (lookup k c.entries)) [
      | inl gone ↦ ground (
        arith,
        evict-lookup (length live) c.max_entries live k,
        lookup-retain (λ e. is_live c.ttl now e.1) k c.entries d,
      )
      | inr (e, found) ↦ ground (
        arith,
        evict-lookup (length live) c.max_entries live k,
        lookup-retain (λ e. is_live c.ttl now e.1) k c.entries d,
      )
    ]

insert-answer :
    (c : SearchCache) (now later : ℕ) (key json j : Text)
    → (get (insert c now key json) later j).0
      ≡ live_answer c.ttl later (
          if text_eq key j
          then some (record { results_json = json; inserted_at = now })
          else lookup j (make_room c now))
unfolding insert
insert-answer c now later key json j =
    get-answer (insert c now key json) later j
    ∙ ap (live_answer c.ttl later)
        (lookup-put key (record { results_json = json; inserted_at = now }) j (make_room c now))

-- Where the cache has no duplicate keys, what was inserted under a key is returned under it until
-- the time to live is over; under another key the insertion changes no answer, or takes it away.
pub insert-get :
    (c : SearchCache) (now later : ℕ) (key json j : Text)
    → Distinct c.entries
    → ((get (insert c now key json) later key).0
        ≡ (if ltb (later - now) c.ttl then some json else none))
      × ((key ≡ j)
          ⊎ ((get (insert c now key json) later j).0 ≡ (get c later j).0)
          ⊎ ((get (insert c now key json) later j).0 ≡ none))
insert-get c now later key json j d = (
  insert-answer c now later key json key ∙ rw (text_eq_refl key) refl,
  elim (Bool-cases (text_eq key j)) [
    | inl same ↦ inl ((text_eq_iff key j).0 same)
    | inr other ↦
        let answer = insert-answer c now later key json j in
        elim (make_room-lookup c now j d) [
          | inl kept ↦ inr (inl (answer ∙ rw (other, kept) (sym (get-answer c later j))))
          | inr gone ↦ inr (inr (answer ∙ rw (other, gone) refl))
        ]
  ],
)

-- A lookup keeps the keys distinct, and the time to live.
pub get-Distinct :
    (c : SearchCache) (now : ℕ) (key : Text)
    → Distinct c.entries
    → Distinct (get c now key).1.entries × ((get c now key).1.ttl ≡ c.ttl)
unfolding get
get-Distinct c now key d = elim (Option-cases (lookup key c.entries)) [
  | inl gone ↦ rw (gone, get) (d, refl)
  | inr (e, found) ↦ elim (Bool-cases (is_live c.ttl now e)) [
    | inl live ↦ rw (found, live, get) (d, refl)
    | inr dead ↦ rw (found, dead, get) (without-Distinct key c.entries d, refl)
  ]
]
