-- ===== src/Node/Payloads.antt =====
-- The payloads of messages (src/proto/msg_type.rs). Their JSON is that of `serde_json`, a
-- parameter: a payload that does not read is `none`.
use dsearch.Base.{ℕ, Bool, Option, List, Text}
use dsearch.Search.Scoring.{Floats}

pub record NodeInfo : Type 0 where
  pub id : Text
  pub addr : Text

-- Also the payload of `HandshakeAck`.
pub record Handshake : Type 0 where
  pub version : ℕ
  pub node_id : Text
  pub roles : List Text
  pub capabilities : List Text

pub record Announce : Type 0 where
  pub record_id : Text
  pub source_hash : Text
  pub schema : Text
  pub tags : List Text
  pub holder_addr : Text
  pub expires_at : ℕ
  pub sig : Text

-- The payloads of `AnnounceAck` and of `ReplicateAck`.
pub record Ack : Type 0 where
  pub record_id : Text
  pub accepted : Bool
  pub reason : Text

pub record SearchQuery : Type 0 where
  pub query : Text
  pub schema : Option Text
  pub limit : ℕ
  pub requester_id : Text
  pub reply_to : Text

pub record SearchResultEntry (F : Floats) : Type 0 where
  pub record_id : Text
  pub schema : Text
  pub tags : List Text
  pub holder_addr : Text
  pub score : F.Float

pub record SearchReply (F : Floats) : Type 0 where
  pub query : Text
  pub results : List (SearchResultEntry F)
  pub from_node : Text

pub record RecordReply : Type 0 where
  pub record_id : Text
  pub record_json : Option Text
  pub not_found : Bool

pub record ReplicatePush : Type 0 where
  pub record_id : Text
  pub record_json : Text
  pub source_hash : Text
  pub sig : Text

-- `decode_payload` at the payloads that a node reads; of a record that is fetched it is the id, of
-- a ping the nonce, and of a search for nodes the target. The last is the error of a record's text
-- that does not read.
pub record Wire : Type 0 where
  pub read_handshake : List ℕ → Option Handshake
  pub read_handshake_ack : List ℕ → Option Handshake
  pub read_ping : List ℕ → Option ℕ
  pub read_find_node : List ℕ → Option Text
  pub read_announce : List ℕ → Option Announce
  pub read_search_query : List ℕ → Option SearchQuery
  pub read_record_fetch : List ℕ → Option Text
  pub read_replicate_push : List ℕ → Option ReplicatePush
  pub read_peer_exchange : List ℕ → Option (List NodeInfo)
  pub read_goodbye : List ℕ → Option Text
  pub record_error : Text → Text
