-- ===== src/Node/Stun.antt =====
-- The answer of a STUN server (src/node/stun.rs): a list of the bytes received. The sockets and the
-- transaction id are left out; an address is the bytes of its IP and its port, which the code
-- prints.
pub mod Answers
use dsearch.Base.{
  ℕ, zero, suc, ◌+◌, ◌-◌, ◌*◌, ◌%◌, Bool, true, false, not, Option, none, some, List, [], ◌∷◌, ◌++◌,
  ltb, ◌==◌, if◌then◌else◌, Result, ok, err, text_eq, length, take, drop,
}
use dsearch.Node.Dht.{xor_bits, xor_bytes}

pub data Address : Type 0 where
  ipv4 ipv6 : List ℕ → ℕ → Address

pub data StunError : Type 0 where
  too_short transaction_mismatch truncated : StunError
  unexpected_type : ℕ → StunError
  address_too_short ipv4_too_short ipv6_too_short no_address : StunError
  unknown_family : ℕ → StunError

-- `u16::from_be_bytes`
abbrev pub from_be_u16 : List ℕ → ℕ
from_be_u16 (a ∷ b ∷ rest) = a * 256 + b
from_be_u16 _ = 0

abbrev pub magic_cookie : List ℕ
magic_cookie = 0x21 ∷ 0x12 ∷ 0xA4 ∷ 0x42 ∷ []

abbrev pub first_byte : List ℕ → ℕ
first_byte [] = 0
first_byte (b ∷ bytes) = b

-- The value of an XOR-MAPPED-ADDRESS. The family is read from its first byte, under the first byte
-- of the cookie; the port and the address are under the cookie and the transaction id.
unfoldable pub xor_mapped : List ℕ → List ℕ → Result Address StunError
xor_mapped txn_id attr_data =
    let family = xor_bits 8 (first_byte attr_data) 0x21 in
    let xport = from_be_u16 (xor_bytes 2 (drop 2 attr_data) magic_cookie) in
    if ltb (length attr_data) 4
    then err address_too_short
    else if family == 1
    then (if ltb (length attr_data) 8
        then err ipv4_too_short
        else ok (ipv4 (xor_bytes 4 (drop 4 attr_data) magic_cookie) xport))
    else if family == 2
    then (if ltb (length attr_data) 20
        then err ipv6_too_short
        else ok (ipv6 (xor_bytes 16 (drop 4 attr_data) (magic_cookie ++ txn_id)) xport))
    else err (unknown_family family)

-- The value of a MAPPED-ADDRESS; one of a family other than IPv4 is passed over.
unfoldable pub mapped : List ℕ → Option (Result Address StunError)
mapped attr_data =
    if ltb (length attr_data) 4
    then some (err address_too_short)
    else if first_byte attr_data == 1
    then (if ltb (length attr_data) 8
        then some (err ipv4_too_short)
        else some (ok (ipv4 (take 4 (drop 4 attr_data)) (from_be_u16 (drop 2 attr_data)))))
    else none

-- What an attribute returns; `none` goes on to the next.
unfoldable pub read_attribute : List ℕ → ℕ → List ℕ → Option (Result Address StunError)
read_attribute txn_id attr_type attr_data =
    if attr_type == 0x20
    then some (xor_mapped txn_id attr_data)
    else if attr_type == 1
    then mapped attr_data
    else none

-- A length rounded up to a multiple of 4.
abbrev pub padded_len : ℕ → ℕ
padded_len n = n + 3 - (n + 3) % 4

-- The loop over the attributes: the bytes from the offset up to the end, of which some are to be
-- passed over first.
unfoldable pub parse_attributes : List ℕ → ℕ → List ℕ → Result Address StunError
parse_attributes txn_id (suc k) [] = err no_address
parse_attributes txn_id (suc k) (b ∷ bytes) = parse_attributes txn_id k bytes
parse_attributes txn_id zero (t0 ∷ t1 ∷ l0 ∷ l1 ∷ attr_data) =
    let attr_len = l0 * 256 + l1 in
    let rest = parse_attributes txn_id (padded_len attr_len) attr_data in
    if ltb (length attr_data) attr_len
    then err no_address
    else elim (read_attribute txn_id (t0 * 256 + t1) (take attr_len attr_data)) [
      | some result ↦ result
      | none ↦ rest
    ]
parse_attributes txn_id zero _ = err no_address

abbrev pub response_size : ℕ
response_size = 576

-- What `stun_bind` makes of the bytes that it has received.
unfoldable pub parse_received : List ℕ → List ℕ → Result Address StunError
parse_received txn_id response =
    let msg_type = from_be_u16 response in
    let msg_len = from_be_u16 (drop 2 response) in
    if ltb (length response) 20
    then err too_short
    else if not (msg_type == 0x0101)
    then err (unexpected_type msg_type)
    else if not (text_eq (take 12 (drop 8 response)) txn_id)
    then err transaction_mismatch
    else if ltb (length response) (20 + msg_len)
    then err truncated
    else parse_attributes txn_id zero (take msg_len (drop 20 response))

-- What `stun_bind` returns for a datagram in response to its request with this transaction id: as
-- much of it is received as the buffer holds.
unfoldable pub parse_response : List ℕ → List ℕ → Result Address StunError
parse_response txn_id datagram = parse_received txn_id (take response_size datagram)
