-- ===== src/Node/Dht.antt =====
-- The routing table (src/node/dht.rs).
pub mod Distance
pub mod Prune
use dsearch.Base.{
  hex_pair, ℕ, zero, suc, ◌+◌, ◌-◌, ◌*◌, ◌/◌, ◌%◌, Bool, true, false, not, ◌&&◌, Option, none, some,
  List, [], ◌∷◌, ltb, leb, ◌==◌, if◌then◌else◌, is_some, Text, text_eq, as_bytes, lookup, without,
  retain, length, replicate, take, map,
}

-- Seconds without activity after which a peer is stale.
abbrev pub peer_stale_secs : ℕ
peer_stale_secs = 900

pub record RoutingEntry : Type 0 where
  pub node_id : Text
  pub addr : Text
  pub roles : List Text
  pub last_seen : ℕ

-- A `BTreeMap`: the entries in the order of their keys.
pub record RoutingTable : Type 0 where
  pub buckets : List (Text × RoutingEntry)

unfoldable pub new : RoutingTable
new = record { buckets = [] }

-- The order of `u8` arrays, and of strings: it is the same on UTF-8 bytes and on characters.
unfoldable pub bytes_lt : List ℕ → List ℕ → Bool
bytes_lt _ [] = false
bytes_lt [] (y ∷ ys) = true
bytes_lt (x ∷ xs) (y ∷ ys) =
    let rest = bytes_lt xs ys in if ltb x y then true else if ltb y x then false else rest

-- Pairs that do not read are left out; so is a last byte without a second.
unfoldable pub hex_pairs : List ℕ → List ℕ
hex_pairs [] = []
hex_pairs (a ∷ []) = []
hex_pairs (a ∷ b ∷ s) =
    let rest = hex_pairs s in elim (hex_pair a b) [ none ↦ rest | some n ↦ n ∷ rest ]

unfoldable pub hex_to_bytes : Text → List ℕ
hex_to_bytes hex = hex_pairs (as_bytes hex)

-- `^` on numbers of so many bits.
unfoldable pub xor_bits : ℕ → ℕ → ℕ → ℕ
xor_bits zero a b = 0
xor_bits (suc bits) a b = (a % 2 + b % 2) % 2 + 2 * xor_bits bits (a / 2) (b / 2)

-- The loop of `xor_distance` over the places of the result.
unfoldable pub xor_bytes : ℕ → List ℕ → List ℕ → List ℕ
xor_bytes zero xs ys = []
xor_bytes (suc n) (x ∷ xs) (y ∷ ys) = xor_bits 8 x y ∷ xor_bytes n xs ys
xor_bytes (suc n) _ _ = replicate (suc n) 0

-- The distance of two hex-encoded node ids.
unfoldable pub xor_distance : Text → Text → List ℕ
xor_distance a b = xor_bytes 32 (hex_to_bytes a) (hex_to_bytes b)

unfoldable pub insert_entry :
    Text → RoutingEntry → List (Text × RoutingEntry) → List (Text × RoutingEntry)
insert_entry k v [] = (k, v) ∷ []
insert_entry k v ((j, w) ∷ l) =
    let rest = insert_entry k v l in
    if text_eq j k then (k, v) ∷ l else if bytes_lt k j then (k, v) ∷ (j, w) ∷ l else (j, w) ∷ rest

unfoldable pub insert : RoutingTable → RoutingEntry → RoutingTable
insert t entry = record t { buckets = insert_entry entry.node_id entry t.buckets }

unfoldable pub remove : RoutingTable → Text → Bool × RoutingTable
remove t node_id =
    (is_some (lookup node_id t.buckets), record t { buckets = without node_id t.buckets })

-- Whether the first entry is at most as far from the target as the second.
unfoldable pub not_farther : Text → RoutingEntry → RoutingEntry → Bool
not_farther target_id a b =
    not (bytes_lt (xor_distance b.node_id target_id) (xor_distance a.node_id target_id))

-- `sort_by` on the distance, which is stable, as an insertion sort.
unfoldable pub insert_by_distance : Text → RoutingEntry → List RoutingEntry → List RoutingEntry
insert_by_distance target_id e [] = e ∷ []
insert_by_distance target_id e (f ∷ l) =
    let rest = insert_by_distance target_id e l in
    if not_farther target_id e f then e ∷ f ∷ l else f ∷ rest

unfoldable pub sort_by_distance : Text → List RoutingEntry → List RoutingEntry
sort_by_distance target_id [] = []
sort_by_distance target_id (e ∷ l) = insert_by_distance target_id e (sort_by_distance target_id l)

-- `values`
unfoldable pub list : RoutingTable → List RoutingEntry
list t = map (λ e. e.1) t.buckets

unfoldable pub find_closest : RoutingTable → Text → ℕ → List RoutingEntry
find_closest t target_id k = take k (sort_by_distance target_id (list t))

unfoldable pub is_stale : ℕ → ℕ → RoutingEntry → Bool
is_stale cutoff_secs now e = ltb cutoff_secs (now - e.last_seen)

unfoldable pub remove_peers : List Text → List (Text × RoutingEntry) → List (Text × RoutingEntry)
remove_peers [] l = l
remove_peers (id ∷ ids) l = remove_peers ids (without id l)

unfoldable pub stale_peers : RoutingTable → ℕ → ℕ → List Text
stale_peers t cutoff_secs now =
    map (λ e. e.0) (retain (λ e. is_stale cutoff_secs now e.1) t.buckets)

unfoldable pub prune_stale : RoutingTable → ℕ → ℕ → ℕ × RoutingTable
prune_stale t cutoff_secs now =
    let stale = stale_peers t cutoff_secs now in
    (length stale, record t { buckets = remove_peers stale t.buckets })

unfoldable pub prune_dead_peers : RoutingTable → ℕ → ℕ × RoutingTable
prune_dead_peers t now = prune_stale t peer_stale_secs now
