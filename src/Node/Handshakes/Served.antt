-- ===== src/Node/Handshakes/Served.antt =====
-- A connection from its handshake to the end of its messages (src/node/server.rs).
use dsearch.Base.{
  ◌≡◌, ◌∙◌, refl, ℕ, Bool, true, false, ◌&&◌, none, some, List, [], ◌∷◌, ok, Text, text_eq, lookup,
  if◌then◌else◌,
}
use dsearch.Api.Platform.{Platform}
use dsearch.Node.Dht.Prune.{insert-lookup}
use dsearch.Node.Handshakes.{
  Local, Net, talks, handle_connection, is_compatible, is_char_boundary, entry_of, ack_sent,
  own_handshake, write_peers, add_peer,
}
use dsearch.Node.Messages.{Event, handle_messages}
use dsearch.Node.Messages.Ended.{has_returned, handle_messages-lookup}
use dsearch.Node.Payloads.{Wire, Handshake}
use dsearch.Proto.Frame.{Frame}
use dsearch.Proto.MsgType.{handshake}

if_after {ℓ} :
    {A : Type ℓ} (over same : Bool) (gone new old : A)
    → (if over && same then gone else if same then new else old)
      ≡ (if same then (if over then gone else new) else old)
if_after true true gone new old = refl
if_after true false gone new old = refl
if_after false true gone new old = refl
if_after false false gone new old = refl

module _ (P : Platform) (node : Local) (remote_addr : Text) (now : ℕ) (W : Wire) where
  accepted :
      (n : Net P) (f : Frame) (hs : Handshake)
      → f.msg_type ≡ handshake
      → W.read_handshake f.payload ≡ some hs
      → is_compatible hs.version ≡ true
      → is_char_boundary 8 hs.node_id ≡ true
      → handle_connection P node remote_addr now W (ok (some f)) n ≡ (
        talks hs.node_id,
        ack_sent (own_handshake node) ∷ [],
        write_peers P (add_peer P remote_addr now hs n),
      )
  unfolding handle_connection
  accepted n f hs t r c b = rw (t, r, c, b) refl

  -- A handshake of a compatible version, from a peer whose id can be cut for the log, is accepted,
  -- and its messages are handled under that id. Whatever they are, they leave on the routing table
  -- the entry of the peer, with the address and the time of the connection, as long as its loop
  -- has not returned, and no entry of it from then on; all other entries are those from before.
  pub handle_connection-lookup :
      (n : Net P) (f : Frame) (hs : Handshake) (events : List Event) (id : Text)
      → f.msg_type ≡ handshake
      → W.read_handshake f.payload ≡ some hs
      → is_compatible hs.version ≡ true
      → is_char_boundary 8 hs.node_id ≡ true
      → let shaken = handle_connection P node remote_addr now W (ok (some f)) n in
        let loop = handle_messages P W hs.node_id events shaken.2.peers in
        (shaken.0 ≡ talks hs.node_id)
        × (lookup id loop.2.table.buckets ≡ (
            if text_eq hs.node_id id
            then (if has_returned P W hs.node_id loop.1
                then none
                else some (entry_of hs remote_addr now))
            else lookup id n.peers.table.buckets))
  handle_connection-lookup n f hs events id t r c b =
      let peers = (write_peers P (add_peer P remote_addr now hs n)).peers in
      let loop = handle_messages P W hs.node_id events peers in
      rw (accepted n f hs t r c b) (
        refl,
        handle_messages-lookup P W hs.node_id events peers id
            ∙ rw (insert-lookup n.peers.table (entry_of hs remote_addr now) id) (
                if_after (has_returned P W hs.node_id loop.1) (text_eq hs.node_id id) none
                  (some (entry_of hs remote_addr now)) (lookup id n.peers.table.buckets)),
      )
