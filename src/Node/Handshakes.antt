-- ===== src/Node/Handshakes.antt =====
-- The handshakes of a node (src/node/server.rs, with the frames that src/node/announce.rs and
-- src/scraper/replicate.rs send): what it does with the first frame of a connection, and with the
-- answer to its own. Frames to send are values; that writing one may fail is left out. Log lines
-- are those of the level `info` and above.
pub mod Served
use dsearch.Base.{
  ℕ, zero, suc, ◌+◌, ◌-◌, leb, ltb, Bool, true, false, Option, none, some, List, [], ◌∷◌, ◌++◌, map,
  Result, ok, err, Text, codes, char_size, if◌then◌else◌,
}
use dsearch.Api.Platform.{Platform, StoreOf}
use dsearch.Model.{ContentRecord, Announcement}
use dsearch.Node.Dht.{RoutingTable, RoutingEntry, insert, list}
use dsearch.Node.Messages.{Peers, found_or_empty}
use dsearch.Node.Payloads.{Handshake, Announce, ReplicatePush, Wire}
use dsearch.Node.Roles.{NodeRole, as_str}
use dsearch.Proto.Frame.{Frame, FrameError}
use dsearch.Proto.MsgType.{
  MsgType, handshake, handshake_ack, ping, pong, find_node, find_node_reply, announce, announce_ack,
  search_query, search_reply, record_fetch, record_reply, replicate_push, replicate_ack,
  peer_exchange, goodbye, protocol_version,
}
use dsearch.Storage.Store.{list_records}

-- What is sent in a handshake.
pub data Sent : Type 0 where
  handshake_sent ack_sent : Handshake → Sent
  goodbye_sent : Text → Sent
  announce_sent : Announce → Sent
  push_sent : ReplicatePush → Sent

-- How a handshake ends: the messages of a peer are handled in a task of their own, by the id of
-- the peer; the connection is left; it is refused for its version; it fails; or its task panics.
pub data Shaken : Type 0 where
  talks : Text → Shaken
  leaves fails panics : Shaken
  refused : ℕ → Shaken

-- The identity of a node.
pub record Local : Type 0 where
  pub node_id : Text
  pub role : NodeRole
  pub listen_addr : Text

-- Whether a text can be cut after so many bytes, or is not longer.
unfoldable pub is_char_boundary : ℕ → Text → Bool
is_char_boundary n [] = true
is_char_boundary n (c ∷ s) =
    let rest = is_char_boundary (n - char_size c) s in
    elim n [ zero ↦ true | suc m ↦ if leb (char_size c) (suc m) then rest else false ]

abbrev pub abs_diff : ℕ → ℕ → ℕ
abs_diff a b = (a - b) + (b - a)

abbrev pub is_compatible : ℕ → Bool
is_compatible version = leb (abs_diff version protocol_version) 1

-- The handshake that a node sends, and its acknowledgement.
abbrev pub own_handshake : Local → Handshake
own_handshake node = record {
  version = protocol_version;
  node_id = node.node_id;
  roles = as_str node.role ∷ [];
  capabilities = [];
}

abbrev pub entry_of : Handshake → Text → ℕ → RoutingEntry
entry_of hs remote_addr now = record {
  node_id = hs.node_id;
  addr = remote_addr;
  roles = hs.roles;
  last_seen = now;
}

-- The frame that announces a record, and the one that pushes it.
abbrev pub announce_of : Text → ContentRecord → Announce
announce_of listen_addr r = record {
  record_id = r.id;
  source_hash = r.source_hash;
  schema = r.schema;
  tags = r.tags;
  holder_addr = listen_addr;
  expires_at = r.expires_at;
  sig = r.sig;
}

module _ (P : Platform) where
  abbrev pub push_of : ContentRecord → ReplicatePush
  push_of r = record {
    record_id = r.id;
    record_json = P.serde.to_json r;
    source_hash = r.source_hash;
    sig = r.sig;
  }

  abbrev pub entry_value : RoutingEntry → P.json.Value
  entry_value e = P.json.object (
      (codes "node_id", P.json.string e.node_id)
      ∷ (codes "addr", P.json.string e.addr)
      ∷ (codes "roles", P.json.array (map P.json.string e.roles))
      ∷ (codes "last_seen", P.json.number e.last_seen)
      ∷ [])

  -- The text of peers.json.
  unfoldable pub write_peers_file : RoutingTable → Text
  write_peers_file table = P.json.to_string_pretty (P.json.array (map entry_value (list table)))

  -- What a handshake works on: the connection's context, and the file of peers.
  pub record Net : Type 0 where
    pub peers : Peers P
    pub peers_file : Option Text

  abbrev pub Handshaken : Type 0
  Handshaken = Shaken × List Sent × Net

  -- The peer is on the table before its id is cut for the log, and in the file after it.
  abbrev pub add_peer : Text → ℕ → Handshake → Net → Net
  add_peer remote_addr now hs n = record n {
    peers = record n.peers { table = insert n.peers.table (entry_of hs remote_addr now) };
  }

  abbrev pub write_peers : Net → Net
  write_peers n = record n { peers_file = some (write_peers_file n.peers.table) }

  module _ (node : Local) (remote_addr : Text) (now : ℕ) where
    abbrev pub accept_handshake : Net → Option Handshake → Handshaken
    accept_handshake n none = (fails, [], n)
    accept_handshake n (some hs) =
        let n' = add_peer remote_addr now hs n in
        if is_compatible hs.version
        then (if is_char_boundary 8 hs.node_id
            then (talks hs.node_id, ack_sent (own_handshake node) ∷ [], write_peers n')
            else (panics, ack_sent (own_handshake node) ∷ [], n'))
        else (refused hs.version, goodbye_sent (codes "incompatible version") ∷ [], n)

    -- The first frame of an incoming connection; any other than a handshake ends it.
    unfoldable pub handle_connection : Wire → Result (Option Frame) FrameError → Net → Handshaken
    handle_connection W (err e) n = (fails, [], n)
    handle_connection W (ok none) n = (leaves, [], n)
    handle_connection W (ok (some f)) n = elim f.msg_type [
      | handshake ↦ accept_handshake n (W.read_handshake f.payload)
      | handshake_ack ↦ (leaves, [], n)
      | ping ↦ (leaves, [], n)
      | pong ↦ (leaves, [], n)
      | find_node ↦ (leaves, [], n)
      | find_node_reply ↦ (leaves, [], n)
      | announce ↦ (leaves, [], n)
      | announce_ack ↦ (leaves, [], n)
      | search_query ↦ (leaves, [], n)
      | search_reply ↦ (leaves, [], n)
      | record_fetch ↦ (leaves, [], n)
      | record_reply ↦ (leaves, [], n)
      | replicate_push ↦ (leaves, [], n)
      | replicate_ack ↦ (leaves, [], n)
      | peer_exchange ↦ (leaves, [], n)
      | goodbye ↦ (leaves, [], n)
    ]

    -- The frames by which a new peer is told of the records that are held.
    abbrev pub offers : Option (StoreOf P) → List Sent
    offers none = []
    offers (some store) =
        map (λ r. announce_sent (announce_of node.listen_addr r))
          (found_or_empty P (list_records P.redb P.serde P.ed25519 P.signature_bytes store none 50))
        ++ map (λ r. push_sent (push_of r))
            (found_or_empty P
              (list_records P.redb P.serde P.ed25519 P.signature_bytes store none 10))

    abbrev pub accept_ack : Net → Option Handshake → Handshaken
    accept_ack n none = (fails, handshake_sent (own_handshake node) ∷ [], n)
    accept_ack n (some ack) =
        let n' = add_peer remote_addr now ack n in
        if is_compatible ack.version
        then (if is_char_boundary 8 ack.node_id
            then (
              talks ack.node_id,
              handshake_sent (own_handshake node) ∷ offers n.peers.store,
              write_peers n',
            )
            else (panics, handshake_sent (own_handshake node) ∷ [], n'))
        else (
          refused ack.version,
          handshake_sent (own_handshake node) ∷ goodbye_sent (codes "incompatible version") ∷ [],
          n,
        )

    -- A connection to a peer, once it is open. Without an acknowledgement the messages are handled
    -- all the same, for a peer with an empty id.
    unfoldable pub connect_to_peer : Wire → Result (Option Frame) FrameError → Net → Handshaken
    connect_to_peer W (err e) n = (fails, handshake_sent (own_handshake node) ∷ [], n)
    connect_to_peer W (ok none) n = (talks [], handshake_sent (own_handshake node) ∷ [], n)
    connect_to_peer W (ok (some f)) n =
        let other : Handshaken = (talks [], handshake_sent (own_handshake node) ∷ [], n) in
        elim f.msg_type [
          | handshake_ack ↦ accept_ack n (W.read_handshake_ack f.payload)
          | handshake ↦ other
          | ping ↦ other
          | pong ↦ other
          | find_node ↦ other
          | find_node_reply ↦ other
          | announce ↦ other
          | announce_ack ↦ other
          | search_query ↦ other
          | search_reply ↦ other
          | record_fetch ↦ other
          | record_reply ↦ other
          | replicate_push ↦ other
          | replicate_ack ↦ other
          | peer_exchange ↦ other
          | goodbye ↦ other
        ]
