-- ===== src/Node/Messages.antt =====
-- The messages of a peer (src/node/server.rs, src/node/announce.rs, src/scraper/replicate.rs): what
-- a node does at each frame, and the loop over a connection. Replies are values; that writing one
-- may fail is left out.
pub mod Ended
pub mod Kept
use dsearch.Base.{
  ℕ, Bool, true, false, not, Option, none, some, List, [], ◌∷◌, ◌++◌, map, retain, Result, ok, err,
  Text, codes, text_eq, if◌then◌else◌, is_some,
}
use dsearch.Model.{ContentRecord, Announcement}
use dsearch.Node.Dht.{RoutingTable, RoutingEntry, find_closest, list, remove}
use dsearch.Node.Payloads.{
  NodeInfo, Announce, Ack, SearchQuery, SearchResultEntry, SearchReply, RecordReply, ReplicatePush,
  Wire,
}
use dsearch.Proto.Frame.{Frame, FrameError}
use dsearch.Proto.MsgType.{
  MsgType, handshake, handshake_ack, ping, pong, find_node, find_node_reply, announce, announce_ack,
  search_query, search_reply, record_fetch, record_reply, replicate_push, replicate_ack,
  peer_exchange, goodbye,
}
use dsearch.Storage.Db.{StorageError}
use dsearch.Storage.Records.{InsertResult}
use dsearch.Storage.Store.{
  StoreError, storage, self_verification_failed, index_panic, insert_record, get_record,
  insert_announcement,
}
use dsearch.Storage.Store.Search.{search_records}
use dsearch.Api.Platform.{Platform, StoreOf, Clock}

-- What a connection works on: the routing table, and the store if the node has one.
pub record Peers (P : Platform) : Type 0 where
  pub table : RoutingTable
  pub store : Option (StoreOf P)

pub data Reply (P : Platform) : Type 0 where
  pong_reply : ℕ → Reply P
  nodes_reply : List NodeInfo → Reply P
  announce_reply replicate_reply : Ack → Reply P
  search_results : SearchReply P.floats → Reply P
  record_result : RecordReply → Reply P
  peers_reply : List NodeInfo → Reply P
  goodbye_reply : Text → Reply P

-- How a frame leaves the loop: it goes on, after a reply or none; it ends, well or with an error;
-- or its task panics.
pub data Flow (P : Platform) : Type 0 where
  goes_on : Option (Reply P) → Flow P
  ends fails panics : Flow P

abbrev pub node_info : RoutingEntry → NodeInfo
node_info e = record { id = e.node_id; addr = e.addr }

-- The acknowledgement of a record that is announced or pushed.
abbrev pub ack_of : Text → Bool → Ack
ack_of record_id accepted = record {
  record_id = record_id;
  accepted = accepted;
  reason = if accepted then [] else codes "insert failed";
}

abbrev pub no_store : Text → Ack
no_store record_id = record { record_id = record_id; accepted = false; reason = codes "no store" }

abbrev pub accepts {ℓ κ} : {A : Type ℓ} {E : Type κ} → Result A E → Bool
accepts (ok a) = true
accepts (err e) = false

unfoldable pub announcement_of : Announce → Announcement
announcement_of msg = record {
  record_id = msg.record_id;
  source_hash = msg.source_hash;
  schema = msg.schema;
  tags = msg.tags;
  holder_addr = msg.holder_addr;
  expires_at = msg.expires_at;
  sig = msg.sig;
}

-- The peers that are told to another: all but itself.
unfoldable pub peers_for : Text → RoutingTable → List NodeInfo
peers_for peer_node_id t =
    map node_info (retain (λ e. not (text_eq e.node_id peer_node_id)) (list t))

module _ (P : Platform) where
  unfoldable pub handle_announce : StoreOf P → Announce → Flow P × StoreOf P
  handle_announce store msg =
      let ((result, store'), signed) =
        insert_announcement P.redb P.serde P.ed25519 P.signature_bytes store
          (announcement_of msg) in
      (goes_on (some (announce_reply (ack_of msg.record_id (accepts result)))), store')

  abbrev pub pushed_flow : Text → Result InsertResult StoreError → Flow P
  pushed_flow record_id (ok result) = goes_on (some (replicate_reply (ack_of record_id true)))
  pushed_flow record_id (err (storage e)) =
      goes_on (some (replicate_reply (ack_of record_id false)))
  pushed_flow record_id (err self_verification_failed) =
      goes_on (some (replicate_reply (ack_of record_id false)))
  pushed_flow record_id (err index_panic) = panics

  -- A record that is pushed is stored as it was sent.
  unfoldable pub handle_replicate_push : Wire → StoreOf P → ReplicatePush → Flow P × StoreOf P
  handle_replicate_push W store msg = elim (P.serde.from_json msg.record_json) [
    | none ↦ (
      goes_on (
          some (
            replicate_reply (record {
              record_id = msg.record_id;
              accepted = false;
              reason = codes "deserialize error: " ++ W.record_error msg.record_json;
            }))),
      store,
    )
    | some r ↦
        let ((result, store'), signed) =
          insert_record P.redb P.serde P.ed25519 P.signature_bytes store r in
        (pushed_flow msg.record_id result, store')
  ]

  abbrev pub found_or_empty : Result (List ContentRecord) StorageError → List ContentRecord
  found_or_empty (ok records) = records
  found_or_empty (err e) = []

  abbrev pub result_entry : ContentRecord → SearchResultEntry P.floats
  result_entry r = record {
    record_id = r.id;
    schema = r.schema;
    tags = r.tags;
    holder_addr = [];
    score = P.floats.of_nat 1;
  }

  -- The results of a search; the reply names the peer that asked as the node it is from.
  unfoldable pub handle_search_query : Text → StoreOf P → Clock → SearchQuery → Flow P × StoreOf P
  handle_search_query peer_node_id store clock sq =
      let (found, store') =
        search_records P.floats P.to_lowercase P.redb P.serde P.list_serde P.ed25519 store
          clock.instant clock.now sq.query sq.limit in
      (
        goes_on (
            some (
              search_results (record {
                query = sq.query;
                results = map result_entry (found_or_empty found);
                from_node = peer_node_id;
              }))),
        store',
      )

  abbrev pub found_json : Result (Option ContentRecord) StorageError → Option Text
  found_json (ok (some r)) = some (P.serde.to_json r)
  found_json (ok none) = none
  found_json (err e) = none

  unfoldable pub handle_record_fetch : StoreOf P → Text → Flow P
  handle_record_fetch store record_id =
      let json =
        found_json (get_record P.redb P.serde P.ed25519 P.signature_bytes store record_id) in
      goes_on (
        some (
          record_result
            (record { record_id = record_id; record_json = json; not_found = not (is_some json) })))

  -- What a message does with the store, or without one.
  abbrev pub on_store : Peers P → Flow P → (StoreOf P → Flow P × StoreOf P) → Flow P × Peers P
  on_store s without_store f = elim s.store [
    | none ↦ (without_store, s)
    | some store ↦ let (flow, store') = f store in (flow, record s { store = some store' })
  ]

  -- A payload that does not read ends the loop with an error.
  abbrev pub on_payload {ℓ} :
      {A : Type ℓ} → Peers P → Option A → (A → Flow P × Peers P) → Flow P × Peers P
  on_payload s none f = (fails, s)
  on_payload s (some a) f = f a

  abbrev pub answered : Peers P → Reply P → Flow P × Peers P
  answered s reply = (goes_on (some reply), s)

  -- The messages that a peer does not send in the loop are passed over.
  unfoldable pub handle_frame : Wire → Text → Clock → Peers P → MsgType → List ℕ → Flow P × Peers P
  handle_frame W peer_node_id clock s ping payload =
      on_payload s (W.read_ping payload) λ nonce. answered s (pong_reply nonce)
  handle_frame W peer_node_id clock s find_node payload =
      on_payload s (W.read_find_node payload)
        λ target_id. answered s (nodes_reply (map node_info (find_closest s.table target_id 20)))
  handle_frame W peer_node_id clock s announce payload =
      on_payload s (W.read_announce payload) λ msg.
        on_store s (goes_on (some (announce_reply (no_store msg.record_id))))
          λ store. handle_announce store msg
  handle_frame W peer_node_id clock s search_query payload =
      on_payload s (W.read_search_query payload)
        λ sq. on_store s (goes_on none) λ store. handle_search_query peer_node_id store clock sq
  handle_frame W peer_node_id clock s record_fetch payload =
      on_payload s (W.read_record_fetch payload)
        λ record_id. on_store s (goes_on none) λ store. (handle_record_fetch store record_id, store)
  handle_frame W peer_node_id clock s replicate_push payload =
      on_payload s (W.read_replicate_push payload) λ msg.
        on_store s (goes_on (some (replicate_reply (no_store msg.record_id))))
          λ store. handle_replicate_push W store msg
  handle_frame W peer_node_id clock s peer_exchange payload =
      on_payload s (W.read_peer_exchange payload)
        λ peers. answered s (peers_reply (peers_for peer_node_id s.table))
  handle_frame W peer_node_id clock s goodbye payload =
      on_payload s (W.read_goodbye payload) λ reason. (ends, s)
  handle_frame W peer_node_id clock s handshake payload = (goes_on none, s)
  handle_frame W peer_node_id clock s handshake_ack payload = (goes_on none, s)
  handle_frame W peer_node_id clock s pong payload = (goes_on none, s)
  handle_frame W peer_node_id clock s find_node_reply payload = (goes_on none, s)
  handle_frame W peer_node_id clock s announce_ack payload = (goes_on none, s)
  handle_frame W peer_node_id clock s search_reply payload = (goes_on none, s)
  handle_frame W peer_node_id clock s record_reply payload = (goes_on none, s)
  handle_frame W peer_node_id clock s replicate_ack payload = (goes_on none, s)

-- What the loop waits for: what reading a frame gives, at a time, or half a second without one,
-- and whether the node still runs then.
pub data Event : Type 0 where
  frame_read : Clock → Result (Option Frame) FrameError → Event
  waited : Bool → Event

-- Where the loop of a connection stands: it waits for more, it has returned, well or with an error,
-- or its task has panicked.
pub data Standing : Type 0 where
  waiting finished_ok finished_err panicked : Standing

module _ (P : Platform) (W : Wire) (peer_node_id : Text) where
  -- One turn of the loop.
  unfoldable pub handle_event : Event → Peers P → Flow P × Peers P
  handle_event (waited true) s = (goes_on none, s)
  handle_event (waited false) s = (ends, s)
  handle_event (frame_read clock (err e)) s = (fails, s)
  handle_event (frame_read clock (ok none)) s = (ends, s)
  handle_event (frame_read clock (ok (some f))) s =
      handle_frame P W peer_node_id clock s f.msg_type f.payload

  -- The frames of the loop that are written at its end: a goodbye when the node stops.
  abbrev pub last_words : Event → List (Reply P)
  last_words (waited false) = goodbye_reply (codes "shutdown") ∷ []
  last_words (waited true) = []
  last_words (frame_read clock r) = []

  abbrev pub replies_of : Option (Reply P) → List (Reply P)
  replies_of none = []
  replies_of (some reply) = reply ∷ []

  abbrev pub Loop : Type 0
  Loop = List (Reply P) × Standing × Peers P

  abbrev pub write_first : List (Reply P) → Loop → Loop
  write_first replies (later, standing, s) = (replies ++ later, standing, s)

  -- The loop over the events of a connection: what it has written, and where it stands.
  unfoldable pub handle_messages_inner : List Event → Peers P → Loop
  handle_messages_inner [] s = ([], waiting, s)
  handle_messages_inner (e ∷ events) s =
      let (flow, s') = handle_event e s in
      elim flow [
        | goes_on reply ↦ write_first (replies_of reply) (handle_messages_inner events s')
        | ends ↦ (last_words e, finished_ok, s')
        | fails ↦ ([], finished_err, s')
        | panics ↦ ([], panicked, s')
      ]

  abbrev pub drop_peer : Peers P → Peers P
  drop_peer s = record s { table = (remove s.table peer_node_id).1 }

  -- A loop that returns, well or not, takes its peer off the routing table.
  abbrev pub after_loop : Standing → Peers P → Peers P
  after_loop waiting s = s
  after_loop panicked s = s
  after_loop finished_ok s = drop_peer s
  after_loop finished_err s = drop_peer s

  unfoldable pub handle_messages : List Event → Peers P → Loop
  handle_messages events s =
      let (replies, standing, s') = handle_messages_inner events s in
      (replies, standing, after_loop standing s')
