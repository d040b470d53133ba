-- ===== src/Node/Dht/Prune.antt =====
-- Insertion, removal and pruning (src/node/dht.rs).
use dsearch.Base.{
  ℕ, ◌≡◌, refl, inl, inr, Bool, Option, none, some, List, [], ◌∷◌, if◌then◌else◌, Text, text_eq,
  text_eq_iff, lookup, without, lookup-without, retain, arith, Option-cases, Distinct, any, map,
  is_some, lookup-retain,
}
use dsearch.Node.Dht.{
  RoutingEntry, RoutingTable, insert_entry, insert, is_stale, remove_peers, stale_peers,
  prune_stale,
}

insert_entry-lookup :
    (k : Text) (v : RoutingEntry) (l : List (Text × RoutingEntry)) (id : Text)
    → lookup id (insert_entry k v l) ≡ (if text_eq k id then some v else lookup id l)
unfolding insert_entry lookup
insert_entry-lookup k v [] id = refl
insert_entry-lookup k v ((j, w) ∷ l) id =
    ground
      (arith, insert_entry-lookup k v l id, text_eq_iff j k, text_eq_iff k id, text_eq_iff j id)

-- An inserted peer is found as it was inserted, whatever stood there, and all others are as they
-- were.
pub insert-lookup :
    (t : RoutingTable) (entry : RoutingEntry) (id : Text)
    → lookup id (insert t entry).buckets
      ≡ (if text_eq entry.node_id id then some entry else lookup id t.buckets)
unfolding insert
insert-lookup t entry id = insert_entry-lookup entry.node_id entry t.buckets id

remove_peers-lookup :
    (ids : List Text) (l : List (Text × RoutingEntry)) (id : Text)
    → lookup id (remove_peers ids l) ≡ (if any (λ i. text_eq i id) ids then none else lookup id l)
unfolding remove_peers any
remove_peers-lookup [] l id = refl
remove_peers-lookup (i ∷ ids) l id =
    ground (arith, remove_peers-lookup ids (without i l) id, lookup-without i id l)

any-keys :
    (l : List (Text × RoutingEntry)) (id : Text)
    → any (λ i. text_eq i id) (map (λ e. e.0) l) ≡ is_some (lookup id l)
unfolding any lookup
any-keys [] id = refl
any-keys ((k, v) ∷ l) id = ground (arith, any-keys l id)

-- What a peer becomes when the stale peers are removed.
abbrev pub unless_stale : ℕ → ℕ → Option RoutingEntry → Option RoutingEntry
unless_stale cutoff_secs now none = none
unless_stale cutoff_secs now (some e) = if is_stale cutoff_secs now e then none else some e

-- In a table without duplicate keys pruning removes exactly the peers that were last seen more than
-- `cutoff_secs` ago, and leaves the others as they were.
pub prune_stale-lookup :
    (t : RoutingTable) (cutoff_secs now : ℕ) (id : Text)
    → Distinct t.buckets
    → lookup id (prune_stale t cutoff_secs now).1.buckets
      ≡ unless_stale cutoff_secs now (lookup id t.buckets)
unfolding prune_stale stale_peers
prune_stale-lookup t cutoff_secs now id d =
    let p : Text × RoutingEntry → Bool = λ e. is_stale cutoff_secs now e.1 in
    let removed = remove_peers-lookup (map (λ e. e.0) (retain p t.buckets)) t.buckets id in
    let stale = any-keys (retain p t.buckets) id in
    let found = lookup-retain p id t.buckets d in
    elim (Option-cases (lookup id t.buckets)) [
      | inl gone ↦ ground arith
      | inr (e, there) ↦ ground arith
    ]
