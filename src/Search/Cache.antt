-- ===== src/Search/Cache.antt =====
-- The cache of search results (src/search/cache.rs). Instants are numbers, and a method reads the
-- clock once, as its argument `now`; `elapsed` stops at 0. A `HashMap` has no order, so which of
-- several entries of one age counts as the oldest is left open there; here it is the first.
pub mod Eviction
pub mod Lookup
use dsearch.Base.{
  ℕ, zero, suc, ◌-◌, Bool, Option, none, some, List, [], ◌∷◌, ltb, leb, ◌==◌, if◌then◌else◌, Text,
  lookup, put, without, retain, length,
}

pub record CacheEntry : Type 0 where
  pub results_json : Text
  pub inserted_at : ℕ

pub record SearchCache : Type 0 where
  pub entries : List (Text × CacheEntry)
  pub ttl : ℕ
  pub max_entries : ℕ

unfoldable pub new : ℕ → ℕ → SearchCache
new ttl max_entries = record { entries = []; ttl = ttl; max_entries = max_entries }

abbrev pub is_live : ℕ → ℕ → CacheEntry → Bool
is_live ttl now e = ltb (now - e.inserted_at) ttl

-- An expired entry is removed when it is looked up.
unfoldable pub get : SearchCache → ℕ → Text → Option Text × SearchCache
get c now key = elim (lookup key c.entries) [
  | none ↦ (none, c)
  | some entry ↦
      if is_live c.ttl now entry
      then (some entry.results_json, c)
      else (none, record c { entries = without key c.entries })
]

-- `min_by_key` on the insertion times.
unfoldable pub oldest : List (Text × CacheEntry) → Option (Text × CacheEntry)
oldest [] = none
oldest (e ∷ l) = elim (oldest l) [
  | none ↦ some e
  | some o ↦ if leb e.1.inserted_at o.1.inserted_at then some e else some o
]

-- The loop that makes room: it removes the oldest entry while the cache is at capacity. Each round
-- removes an entry, so as many rounds as there are entries are enough.
unfoldable pub evict : ℕ → ℕ → List (Text × CacheEntry) → List (Text × CacheEntry)
evict zero max_entries l = l
evict (suc rounds) max_entries l =
    let next : List (Text × CacheEntry) = elim (oldest l) [
      | none ↦ l
      | some e ↦ evict rounds max_entries (without e.0 l)
    ] in
    if leb max_entries (length l) then next else l

unfoldable pub live_entries : SearchCache → ℕ → List (Text × CacheEntry)
live_entries c now = retain (λ e. is_live c.ttl now e.1) c.entries

unfoldable pub make_room : SearchCache → ℕ → List (Text × CacheEntry)
make_room c now = let l = live_entries c now in evict (length l) c.max_entries l

unfoldable pub insert : SearchCache → ℕ → Text → Text → SearchCache
insert c now key results_json = record c {
  entries = put key (record { results_json = results_json; inserted_at = now }) (make_room c now);
}

unfoldable pub invalidate : SearchCache → Text → SearchCache
invalidate c key = record c { entries = without key c.entries }

unfoldable pub clear : SearchCache → SearchCache
clear c = record c { entries = [] }

unfoldable pub len : SearchCache → ℕ
len c = length c.entries

unfoldable pub is_empty : SearchCache → Bool
is_empty c = len c == 0
