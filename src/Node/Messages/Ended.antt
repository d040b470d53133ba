-- ===== src/Node/Messages/Ended.antt =====
-- The routing table along a connection (src/node/server.rs).
use dsearch.Base.{
  ◌≡◌, refl, inl, inr, ◌⊎◌, ℕ, ◌∙◌, Bool, true, false, ◌&&◌, Option, none, some, List, [], ◌∷◌, ok,
  err, Text, text_eq, lookup, lookup-without, if◌then◌else◌, Option-cases,
}
use dsearch.Api.Platform.{Platform, StoreOf, Clock}
use dsearch.Node.Dht.{remove}
use dsearch.Node.Messages.{
  Peers, Flow, goes_on, ends, fails, panics, Event, frame_read, waited, Standing, waiting,
  finished_ok, finished_err, panicked, handle_frame, handle_event, handle_messages_inner,
  handle_messages, after_loop, on_store, on_payload,
}
use dsearch.Node.Payloads.{Wire}
use dsearch.Proto.MsgType.{
  MsgType, handshake, handshake_ack, ping, pong, find_node, find_node_reply, announce, announce_ack,
  search_query, search_reply, record_fetch, record_reply, replicate_push, replicate_ack,
  peer_exchange, goodbye,
}

module _ (P : Platform) where
  on_store-table :
      (s : Peers P) (flow : Flow P) (f : StoreOf P → Flow P × StoreOf P)
      → (on_store P s flow f).1.table ≡ s.table
  on_store-table s flow f = elim (Option-cases s.store) [
    | inl e ↦ rw e refl
    | inr (store, e) ↦ rw e refl
  ]

  on_payload-table {ℓ} :
      {A : Type ℓ} (s : Peers P) (payload : Option A) (f : A → Flow P × Peers P)
      → ((a : A) → (f a).1.table ≡ s.table)
      → (on_payload P s payload f).1.table ≡ s.table
  on_payload-table s none f h = refl
  on_payload-table s (some a) f h = h a

  handle_frame-table :
      (W : Wire) (peer : Text) (clock : Clock) (s : Peers P) (t : MsgType) (payload : List ℕ)
      → (handle_frame P W peer clock s t payload).1.table ≡ s.table
  unfolding handle_frame
  handle_frame-table W peer clock s ping payload =
      on_payload-table s (W.read_ping payload) _ (λ a. refl)
  handle_frame-table W peer clock s find_node payload =
      on_payload-table s (W.read_find_node payload) _ (λ a. refl)
  handle_frame-table W peer clock s announce payload =
      on_payload-table s (W.read_announce payload) _ (λ a. on_store-table s _ _)
  handle_frame-table W peer clock s search_query payload =
      on_payload-table s (W.read_search_query payload) _ (λ a. on_store-table s _ _)
  handle_frame-table W peer clock s record_fetch payload =
      on_payload-table s (W.read_record_fetch payload) _ (λ a. on_store-table s _ _)
  handle_frame-table W peer clock s replicate_push payload =
      on_payload-table s (W.read_replicate_push payload) _ (λ a. on_store-table s _ _)
  handle_frame-table W peer clock s peer_exchange payload =
      on_payload-table s (W.read_peer_exchange payload) _ (λ a. refl)
  handle_frame-table W peer clock s goodbye payload =
      on_payload-table s (W.read_goodbye payload) _ (λ a. refl)
  handle_frame-table W peer clock s handshake payload = refl
  handle_frame-table W peer clock s handshake_ack payload = refl
  handle_frame-table W peer clock s pong payload = refl
  handle_frame-table W peer clock s find_node_reply payload = refl
  handle_frame-table W peer clock s announce_ack payload = refl
  handle_frame-table W peer clock s search_reply payload = refl
  handle_frame-table W peer clock s record_reply payload = refl
  handle_frame-table W peer clock s replicate_ack payload = refl

  module _ (W : Wire) (peer : Text) where
    handle_event-table : (e : Event) (s : Peers P) → (handle_event P W peer e s).1.table ≡ s.table
    unfolding handle_event
    handle_event-table (waited true) s = refl
    handle_event-table (waited false) s = refl
    handle_event-table (frame_read clock (err e)) s = refl
    handle_event-table (frame_read clock (ok none)) s = refl
    handle_event-table (frame_read clock (ok (some f))) s =
        handle_frame-table W peer clock s f.msg_type f.payload

    Flow-cases :
        (flow : Flow P)
        → ((reply : Option _) × (flow ≡ goes_on reply))
          ⊎ ((flow ≡ ends) ⊎ ((flow ≡ fails) ⊎ (flow ≡ panics)))
    Flow-cases (goes_on reply) = inl (reply, refl)
    Flow-cases ends = inr (inl refl)
    Flow-cases fails = inr (inr (inl refl))
    Flow-cases panics = inr (inr (inr refl))

    inner-table :
        (events : List Event) (s : Peers P)
        → (handle_messages_inner P W peer events s).2.table ≡ s.table
    unfolding handle_messages_inner
    inner-table [] s = refl
    inner-table (e ∷ events) s =
        let kept = handle_event-table e s in
        elim (Flow-cases (handle_event P W peer e s).0) [
          | inl (reply, f) ↦
              rw (f, handle_messages_inner)
                (inner-table events (handle_event P W peer e s).1 ∙ kept)
          | inr (inl f) ↦ rw (f, handle_messages_inner) kept
          | inr (inr (inl f)) ↦ rw (f, handle_messages_inner) kept
          | inr (inr (inr f)) ↦ rw (f, handle_messages_inner) kept
        ]

    -- Whether the loop has returned.
    abbrev pub has_returned : Standing → Bool
    has_returned waiting = false
    has_returned panicked = false
    has_returned finished_ok = true
    has_returned finished_err = true

    by_standing :
        (standing : Standing) (s' s : Peers P) (id : Text)
        → s'.table ≡ s.table
        → lookup id (after_loop P W peer standing s').table.buckets
          ≡ (if has_returned standing && text_eq peer id then none else lookup id s.table.buckets)
    unfolding remove
    by_standing waiting s' s id kept = rw kept refl
    by_standing panicked s' s id kept = rw kept refl
    by_standing finished_ok s' s id kept = rw kept (lookup-without peer id s.table.buckets)
    by_standing finished_err s' s id kept = rw kept (lookup-without peer id s.table.buckets)

    -- The messages of a peer never change the routing table. When its loop returns, well or with an
    -- error, the peer is off the table and every other entry stands as before; as long as it
    -- waits, and when its task has panicked, the table is as it was.
    pub handle_messages-lookup :
        (events : List Event) (s : Peers P) (id : Text)
        → lookup id (handle_messages P W peer events s).2.table.buckets ≡ (
            if has_returned (handle_messages P W peer events s).1 && text_eq peer id
            then none
            else lookup id s.table.buckets)
    unfolding handle_messages remove
    handle_messages-lookup events s id =
        let loop = handle_messages_inner P W peer events s in
        let kept = inner-table events s in by_standing loop.1 loop.2 s id kept
