-- ===== src/Tests/Node.antt =====
-- Runs of a node's connections, and the theorems at them.
use dsearch.Base.{
  ◌≤◌, ◌≡◌, refl, true, ◌&&◌, none, some, List, [], ◌∷◌, ok, codes, text_eq, lookup, if◌then◌else◌,
  arith,
}
use dsearch.Api.Platform.{Clock}
use dsearch.Node.Accept.{
  Pool, empty_pool, spawn_task, begin_handshake, panic_handshake, Steps, none_yet, after, accepts,
  begins, panics,
}
use dsearch.Node.Accept.Reached.{talking_pool, talking_unbounded, panicked_exhausts}
use dsearch.Node.Dht.{RoutingEntry}
use dsearch.Node.Handshakes.{Local, Net, talks, handle_connection, is_char_boundary, entry_of}
use dsearch.Node.Handshakes.Served.{handle_connection-lookup}
use dsearch.Node.Messages.{Peers, Event, frame_read, waited, handle_messages, handle_frame}
use dsearch.Node.Messages.Ended.{has_returned, handle_messages-lookup}
use dsearch.Node.Messages.Kept.{tables_of, handle_frame-tables}
use dsearch.Node.Payloads.{Wire, Handshake}
use dsearch.Node.Roles.{full}
use dsearch.Proto.Frame as Frame
use dsearch.Proto.MsgType.{handshake, ping, search_query, goodbye}
use dsearch.Tests.Facade.{store}
use dsearch.Tests.Platform.{small_platform}

-- Pings and goodbyes read, and so do searches, all as one.
abbrev wire : Wire
wire = record {
  read_handshake =
      λ bytes. some (record { version = 2; node_id = codes "p"; roles = []; capabilities = [] });
  read_handshake_ack = λ bytes. none;
  read_ping = λ bytes. some 7;
  read_find_node = λ bytes. some [];
  read_announce = λ bytes. none;
  read_search_query = λ bytes. some (record {
    query = codes "hello";
    schema = none;
    limit = 3;
    requester_id = codes "p";
    reply_to = [];
  });
  read_record_fetch = λ bytes. some [];
  read_replicate_push = λ bytes. none;
  read_peer_exchange = λ bytes. some [];
  read_goodbye = λ bytes. some [];
  record_error = λ t. t;
}

abbrev noon : Clock
noon = record { instant = 7; now = 100 }

abbrev peer_entry : RoutingEntry
peer_entry = record { node_id = codes "p"; addr = codes "a"; roles = []; last_seen = 100 }

abbrev peers : Peers small_platform
peers = record { table = record { buckets = (codes "p", peer_entry) ∷ [] }; store = some store }

abbrev ping_then_goodbye : List Event
ping_then_goodbye =
    frame_read noon (ok (some (Frame.new ping [])))
    ∷ waited true
    ∷ frame_read noon (ok (some (Frame.new goodbye [])))
    ∷ []

handle_messages-lookup_example :
    lookup
      (codes "p")
      (handle_messages small_platform wire (codes "p") ping_then_goodbye peers).2.table.buckets
    ≡ (if has_returned small_platform wire
            (codes "p")
            (handle_messages small_platform wire (codes "p") ping_then_goodbye peers).1
          && text_eq (codes "p") (codes "p")
        then none
        else lookup (codes "p") peers.table.buckets)
handle_messages-lookup_example =
    handle_messages-lookup small_platform wire (codes "p") ping_then_goodbye peers (codes "p")

handle_frame-tables_example :
    tables_of small_platform
      (handle_frame small_platform wire (codes "p") noon peers search_query []).1.store
    ≡ tables_of small_platform peers.store
handle_frame-tables_example =
    handle_frame-tables small_platform wire (codes "p") noon peers search_query [] refl

talking_unbounded_example : Steps 1 empty_pool (talking_pool 3)
talking_unbounded_example = talking_unbounded 1 3 (omega arith)

-- One handshake panics under a cap of one.
abbrev begun : Pool
begun = begin_handshake 0 (spawn_task empty_pool)

abbrev exhausted : Pool
exhausted = panic_handshake 0 begun

exhausts : Steps 1 empty_pool exhausted
exhausts =
    after begun exhausted
      (after (spawn_task empty_pool) begun
        (after empty_pool (spawn_task empty_pool) none_yet (accepts empty_pool (omega arith)))
        (begins (spawn_task empty_pool) 0 refl))
      (panics begun 0 refl)

panicked_exhausts_example : 1 ≤ exhausted.active_connections
panicked_exhausts_example = panicked_exhausts 1 exhausted exhausted exhausts (omega arith) none_yet

abbrev local : Local
local = record { node_id = codes "n"; role = full; listen_addr = codes "l" }

abbrev net : Net small_platform
net = record { peers = peers; peers_file = none }

abbrev peer_handshake : Handshake
peer_handshake = record { version = 2; node_id = codes "p"; roles = []; capabilities = [] }

peer_boundary : is_char_boundary 8 (codes "p") ≡ true
unfolding is_char_boundary dsearch.Base.char_size
peer_boundary = refl

handle_connection-lookup_example :
    let shaken =
      handle_connection small_platform local
        (codes "a")
        100
        wire
        (ok (some (Frame.new handshake [])))
        net in
    let loop = handle_messages small_platform wire (codes "p") ping_then_goodbye shaken.2.peers in
    (shaken.0 ≡ talks (codes "p"))
    × (lookup (codes "p") loop.2.table.buckets ≡ (
        if text_eq (codes "p") (codes "p")
        then (if has_returned small_platform wire (codes "p") loop.1
            then none
            else some (entry_of peer_handshake (codes "a") 100))
        else lookup (codes "p") peers.table.buckets))
unfolding Frame.new
handle_connection-lookup_example =
    handle_connection-lookup small_platform local (codes "a") 100 wire net (Frame.new handshake [])
      peer_handshake ping_then_goodbye (codes "p") refl refl refl peer_boundary
