-- ===== src/Node/Messages/Kept.antt =====
-- Which messages change the tables of the store (src/node/server.rs).
use dsearch.Base.{
  ◌≡◌, refl, inl, inr, ap, Bool, true, false, Option, none, some, List, Text, ℕ, Option-cases,
}
use dsearch.Api.Platform.{Platform, StoreOf, Clock}
use dsearch.Node.Messages.{Peers, Flow, handle_frame, handle_search_query, on_store, on_payload}
use dsearch.Node.Payloads.{Wire, SearchQuery}
use dsearch.Proto.MsgType.{
  MsgType, handshake, handshake_ack, ping, pong, find_node, find_node_reply, announce, announce_ack,
  search_query, search_reply, record_fetch, record_reply, replicate_push, replicate_ack,
  peer_exchange, goodbye,
}
use dsearch.Storage.Db.{Db}
use dsearch.Storage.Store.Kept.{search_records-kept}

module _ (P : Platform) where
  -- The tables, if the node has a store.
  abbrev pub tables_of : Option (StoreOf P) → Option (Db P.redb)
  tables_of none = none
  tables_of (some store) = some store.db

  on_store-tables :
      (s : Peers P) (flow : Flow P) (f : StoreOf P → Flow P × StoreOf P)
      → ((store : StoreOf P) → (f store).1.db ≡ store.db)
      → tables_of (on_store P s flow f).1.store ≡ tables_of s.store
  on_store-tables s flow f h = elim (Option-cases s.store) [
    | inl e ↦ rw e refl
    | inr (store, e) ↦ rw e (ap some (h store))
  ]

  on_payload-tables {ℓ} :
      {A : Type ℓ} (s : Peers P) (payload : Option A) (f : A → Flow P × Peers P)
      → ((a : A) → tables_of (f a).1.store ≡ tables_of s.store)
      → tables_of (on_payload P s payload f).1.store ≡ tables_of s.store
  on_payload-tables s none f h = refl
  on_payload-tables s (some a) f h = h a

  searched_db :
      (peer : Text) (clock : Clock) (sq : SearchQuery) (store : StoreOf P)
      → (handle_search_query P peer store clock sq).1.db ≡ store.db
  unfolding handle_search_query
  searched_db peer clock sq store =
      ap (λ x. x.db)
        (search_records-kept P.floats P.to_lowercase P.redb P.serde P.list_serde P.ed25519 store
          clock.instant clock.now sq.query sq.limit)

  -- The messages that may write.
  abbrev pub writes : MsgType → Bool
  writes announce = true
  writes replicate_push = true
  writes _ = false

  -- Only announcements and pushed records reach the tables: any other frame leaves them as they
  -- were, whatever its payload is.
  pub handle_frame-tables :
      (W : Wire) (peer : Text) (clock : Clock) (s : Peers P) (t : MsgType) (payload : List ℕ)
      → writes t ≡ false
      → tables_of (handle_frame P W peer clock s t payload).1.store ≡ tables_of s.store
  unfolding handle_frame
  handle_frame-tables W peer clock s ping payload h =
      on_payload-tables s (W.read_ping payload) _ (λ a. refl)
  handle_frame-tables W peer clock s find_node payload h =
      on_payload-tables s (W.read_find_node payload) _ (λ a. refl)
  handle_frame-tables W peer clock s announce payload h = absurd (cc)
  handle_frame-tables W peer clock s search_query payload h =
      on_payload-tables s (W.read_search_query payload) _
        (λ sq. on_store-tables s _ _ (searched_db peer clock sq))
  handle_frame-tables W peer clock s record_fetch payload h =
      on_payload-tables s (W.read_record_fetch payload) _
        (λ id. on_store-tables s _ _ (λ store. refl))
  handle_frame-tables W peer clock s replicate_push payload h = absurd (cc)
  handle_frame-tables W peer clock s peer_exchange payload h =
      on_payload-tables s (W.read_peer_exchange payload) _ (λ a. refl)
  handle_frame-tables W peer clock s goodbye payload h =
      on_payload-tables s (W.read_goodbye payload) _ (λ a. refl)
  handle_frame-tables W peer clock s handshake payload h = refl
  handle_frame-tables W peer clock s handshake_ack payload h = refl
  handle_frame-tables W peer clock s pong payload h = refl
  handle_frame-tables W peer clock s find_node_reply payload h = refl
  handle_frame-tables W peer clock s announce_ack payload h = refl
  handle_frame-tables W peer clock s search_reply payload h = refl
  handle_frame-tables W peer clock s record_reply payload h = refl
  handle_frame-tables W peer clock s replicate_ack payload h = refl
