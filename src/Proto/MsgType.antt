-- ===== src/Proto/MsgType.antt =====
-- Message types of the wire protocol (src/proto/msg_type.rs).
use dsearch.Base.{ℕ, ◌≡◌, refl, ◌↔◌, Option, none, some, arith, ◌==◌, if◌then◌else◌}

pub data MsgType : Type 0 where
  handshake handshake_ack ping pong find_node find_node_reply announce announce_ack : MsgType
  search_query search_reply record_fetch record_reply replicate_push replicate_ack : MsgType
  peer_exchange goodbye : MsgType

unfoldable pub from_u8 : ℕ → Option MsgType
from_u8 v =
    if v == 0x01
    then some handshake
    else if v == 0x02
    then some handshake_ack
    else if v == 0x03
    then some ping
    else if v == 0x04
    then some pong
    else if v == 0x05
    then some find_node
    else if v == 0x06
    then some find_node_reply
    else if v == 0x07
    then some announce
    else if v == 0x08
    then some announce_ack
    else if v == 0x09
    then some search_query
    else if v == 0x0a
    then some search_reply
    else if v == 0x0b
    then some record_fetch
    else if v == 0x0c
    then some record_reply
    else if v == 0x0d
    then some replicate_push
    else if v == 0x0e
    then some replicate_ack
    else if v == 0x0f
    then some peer_exchange
    else if v == 0xff
    then some goodbye
    else none

unfoldable pub as_u8 : MsgType → ℕ
as_u8 handshake = 0x01
as_u8 handshake_ack = 0x02
as_u8 ping = 0x03
as_u8 pong = 0x04
as_u8 find_node = 0x05
as_u8 find_node_reply = 0x06
as_u8 announce = 0x07
as_u8 announce_ack = 0x08
as_u8 search_query = 0x09
as_u8 search_reply = 0x0a
as_u8 record_fetch = 0x0b
as_u8 record_reply = 0x0c
as_u8 replicate_push = 0x0d
as_u8 replicate_ack = 0x0e
as_u8 peer_exchange = 0x0f
as_u8 goodbye = 0xff

abbrev pub protocol_version : ℕ
protocol_version = 1

-- 1 MB.
abbrev pub max_payload_size : ℕ
max_payload_size = 1048576

pub from_u8-as_u8 : (t : MsgType) → from_u8 (as_u8 t) ≡ some t
unfolding from_u8 as_u8
from_u8-as_u8 handshake = refl
from_u8-as_u8 _ = refl

as_u8-from_u8 : (v : ℕ) (t : MsgType) → from_u8 v ≡ some t → v ≡ as_u8 t
unfolding from_u8 as_u8
as_u8-from_u8 v handshake h = ground arith
as_u8-from_u8 v _ h = ground arith

-- A byte decodes to a message type exactly when it is the code of that type.
pub from_u8_iff : (v : ℕ) (t : MsgType) → (from_u8 v ≡ some t) ↔ (v ≡ as_u8 t)
from_u8_iff v t = (as_u8-from_u8 v t, λ e. rw e (from_u8-as_u8 t))
