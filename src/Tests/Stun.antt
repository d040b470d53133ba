-- ===== src/Tests/Stun.antt =====
-- Runs of the STUN parser, and the theorems at them.
use dsearch.Base.{
  ℕ, ◌<◌, ◌≡◌, refl, List, [], ◌∷◌, ok, err, length, replicate, arith, leb, if◌then◌else◌,
}
use dsearch.Node.Dht.{xor_bits, xor_bytes}
use dsearch.Node.Stun.{ipv4, unknown_family, parse_response, read_attribute, xor_mapped, truncated}
use dsearch.Node.Stun.Answers.{
  Attribute, encode_attributes, encode_response, first_read, parse_response-encode_response,
}

abbrev txn_id : List ℕ
txn_id = replicate 12 7

-- The name of the server's software, and an address 1.2.3.4 at port 80 as RFC 5389 has it.
abbrev attributes : List Attribute
attributes =
    (0x8022, 65 ∷ 66 ∷ 67 ∷ []) ∷ (0x20, 0 ∷ 1 ∷ 0x21 ∷ 0x42 ∷ 0x20 ∷ 0x10 ∷ 0xA7 ∷ 0x46 ∷ []) ∷ []

small : length (encode_attributes attributes) < 65536
unfolding encode_attributes
small = omega arith

parse_response-encode_response_example :
    parse_response txn_id (encode_response txn_id attributes) ≡ (
      if leb (length (encode_attributes attributes)) 556
      then first_read txn_id attributes
      else err truncated)
parse_response-encode_response_example = parse_response-encode_response txn_id attributes refl small

-- The reserved byte is taken for the family.
refused : first_read txn_id attributes ≡ err (unknown_family 0x21)
unfolding first_read read_attribute xor_mapped xor_bits
refused = refl

-- With the family where the code reads it, the address is read.
accepted :
    first_read txn_id ((0x20, 0x20 ∷ 0 ∷ 0x21 ∷ 0x42 ∷ 0x20 ∷ 0x10 ∷ 0xA7 ∷ 0x46 ∷ []) ∷ [])
    ≡ ok (ipv4 (1 ∷ 2 ∷ 3 ∷ 4 ∷ []) 80)
unfolding first_read read_attribute xor_mapped xor_bits xor_bytes
accepted = refl
