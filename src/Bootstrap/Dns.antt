-- ===== src/Bootstrap/Dns.antt =====
-- Queries of DNS for the peers of a service, and their answers (src/bootstrap/resolver.rs). Reading
-- bytes as text, with replacements, is a parameter.
pub mod Names
use dsearch.Base.{
  ℕ, zero, suc, ◌+◌, ◌*◌, ◌-◌, ◌%◌, Bool, true, false, not, ◌&&◌, ◌||◌, Option, none, some, List,
  [], ◌∷◌, ◌++◌, Result, ok, err, Text, codes, ltb, leb, ◌==◌, if◌then◌else◌, length, drop, take,
  split_on, as_bytes, is_empty_text, decimal,
}
use dsearch.Bootstrap.{BootstrapPeer}

abbrev pub labels : List Text → List ℕ
labels [] = []
labels (label ∷ rest) = (length (as_bytes label) % 256) ∷ (as_bytes label ++ labels rest)

-- The header with one question, the labels of the name between its dots (46), and the type and
-- class of the question.
unfoldable pub build_dns_query : Text → List ℕ
build_dns_query name =
    0x12
    ∷ 0x34
    ∷ 0x01
    ∷ 0x00
    ∷ 0x00
    ∷ 0x01
    ∷ 0
    ∷ 0
    ∷ 0
    ∷ 0
    ∷ 0
    ∷ 0
    ∷ (labels (split_on 46 name) ++ 0 ∷ 0 ∷ 0x21 ∷ 0 ∷ 1 ∷ [])

-- The byte at a place; the code asks only for bytes that are there.
abbrev pub first_or_zero : List ℕ → ℕ
first_or_zero [] = 0
first_or_zero (b ∷ s) = b

abbrev pub byte_at : List ℕ → ℕ → ℕ
byte_at bytes i = first_or_zero (drop i bytes)

abbrev pub u16_at : List ℕ → ℕ → ℕ
u16_at bytes i = byte_at bytes i * 256 + byte_at bytes (i + 1)

-- The bytes of labels are counted down; a byte from 192 on starts a pointer, which ends the name.
unfoldable pub skip_from : ℕ → ℕ → List ℕ → Option ℕ
skip_from inside pos [] = none
skip_from (suc inside) pos (b ∷ s) = skip_from inside (pos + 1) s
skip_from zero pos (len ∷ s) =
    let next = skip_from len (pos + 1) s in
    if len == 0 then some (pos + 1) else if leb 192 len then some (pos + 2) else next

unfoldable pub skip_dns_name : List ℕ → ℕ → Option ℕ
skip_dns_name bytes offset = skip_from 0 offset (drop offset bytes)

abbrev pub name_fuel : List ℕ → ℕ
name_fuel bytes = length bytes + 50

module _ (from_utf8_lossy : List ℕ → Text) where
  abbrev pub with_dot : Text → Text
  with_dot name = if is_empty_text name then name else name ++ 46 ∷ []

  -- The loop on fuel: `none` is a loop that has run out of it.
  unfoldable pub read_name : ℕ → List ℕ → ℕ → Bool → ℕ → Text → Option Text
  read_name zero bytes offset jumped visited name = none
  read_name (suc fuel) bytes offset jumped visited name =
      let len = byte_at bytes offset in
      let pointer = len % 64 * 256 + byte_at bytes (offset + 1) in
      let label_end = offset + 1 + len in
      let name' = with_dot name ++ from_utf8_lossy (take len (drop (offset + 1) bytes)) in
      elim (leb (length bytes) offset || (len == 0)) [
        | true ↦ some name
        | false ↦ elim (leb 192 len) [
          | true ↦
              elim (leb (length bytes) (offset + 1)
                || leb (length bytes) pointer
                || ltb 20 visited) [
                  | true ↦ some name
                  | false ↦ read_name fuel bytes pointer true (visited + 1) name
                ]
          | false ↦ elim (ltb (length bytes) label_end) [
            | true ↦ some (with_dot name)
            | false ↦ elim jumped [
              | false ↦ read_name fuel bytes label_end false visited name'
              | true ↦ elim (leb 20 visited) [
                | true ↦ some name'
                | false ↦ read_name fuel bytes label_end true (visited + 1) name'
              ]
            ]
          ]
        ]
      ]

  abbrev pub name_or_empty : Option Text → Text
  name_or_empty none = []
  name_or_empty (some name) = name

  unfoldable pub read_dns_name : List ℕ → ℕ → Text
  read_dns_name bytes offset = name_or_empty (read_name (name_fuel bytes) bytes offset false 0 [])

  unfoldable pub srv_peer : List ℕ → ℕ → BootstrapPeer
  srv_peer bytes offset =
      let addr =
        read_dns_name bytes (offset + 6) ++ (codes ":" ++ decimal (u16_at bytes (offset + 4))) in
      record { id = codes "srv:" ++ addr; addr = addr; note = codes "DNS SRV" }

  abbrev pub push_peer : BootstrapPeer → Option (List BootstrapPeer) → Option (List BootstrapPeer)
  push_peer p none = none
  push_peer p (some peers) = some (p ∷ peers)

  -- The answers from here on; a record of type 33 with at least six bytes is a peer.
  unfoldable pub read_answers : ℕ → List ℕ → ℕ → Option (List BootstrapPeer)
  read_answers zero bytes offset = some []
  read_answers (suc ancount) bytes offset = elim (skip_dns_name bytes offset) [
    | none ↦ none
    | some start ↦
        let rdlength = u16_at bytes (start + 8) in
        let rest = read_answers ancount bytes (start + 10 + rdlength) in
        if ltb (length bytes) (start + 10)
        then some []
        else if ltb (length bytes) (start + 10 + rdlength)
        then some []
        else if (u16_at bytes start == 33) && leb 6 rdlength
        then push_peer (srv_peer bytes (start + 10)) rest
        else rest
  ]

  -- The offset after the questions, each with four bytes behind its name.
  unfoldable pub skip_questions : ℕ → List ℕ → ℕ → Option ℕ
  skip_questions zero bytes offset = some offset
  skip_questions (suc qdcount) bytes offset = elim (skip_dns_name bytes offset) [
    | none ↦ none
    | some next ↦ skip_questions qdcount bytes (next + 4)
  ]

  unfoldable pub parse_dns_srv_response : List ℕ → Option (List BootstrapPeer)
  parse_dns_srv_response bytes =
      if ltb (length bytes) 12 then none else elim (skip_questions (u16_at bytes 4) bytes 12) [
        | none ↦ none
        | some offset ↦ read_answers (u16_at bytes 6) bytes offset
      ]
