-- ===== src/Node/Stun/Answers.antt =====
-- What is read from well-formed answers of STUN servers (src/node/stun.rs).
use dsearch.Base.{
  ℕ, zero, suc, ◌≤◌, leb, ◌+◌, ◌-◌, ◌*◌, ◌/◌, ◌%◌, ◌<◌, ◌≡◌, refl, sym, ◌∙◌, ap, inl, inr, true,
  false, Option, none, some, List, [], ◌∷◌, ◌++◌, ltb, ◌==◌, ◌⊎◌, if◌then◌else◌, Result, err, is_ok,
  text_eq_refl, length, length-append, length-replicate, take, drop, take-append, drop-append,
  replicate, All, arith, Bool-cases, Option-cases,
}
use dsearch.Node.Dht.{xor_bits}
use dsearch.Node.Stun.{
  Address, StunError, no_address, magic_cookie, first_byte, xor_mapped, mapped, read_attribute,
  padded_len, parse_attributes, parse_received, parse_response, response_size, truncated,
}

-- An attribute: its type and its value.
abbrev pub Attribute : Type 0
Attribute = ℕ × List ℕ

-- An attribute on the wire, padded with zeros.
abbrev pub encode_attribute : Attribute → List ℕ
encode_attribute (attr_type, attr_data) =
    (attr_type / 256)
    ∷ (attr_type % 256)
    ∷ (length attr_data / 256)
    ∷ (length attr_data % 256)
    ∷ (attr_data ++ replicate (padded_len (length attr_data) - length attr_data) 0)

unfoldable pub encode_attributes : List Attribute → List ℕ
encode_attributes [] = []
encode_attributes (a ∷ attributes) = encode_attribute a ++ encode_attributes attributes

-- A binding response with these attributes.
abbrev pub encode_response : List ℕ → List Attribute → List ℕ
encode_response txn_id attributes =
    let bytes = encode_attributes attributes in
    1 ∷ 1 ∷ (length bytes / 256) ∷ (length bytes % 256) ∷ (magic_cookie ++ (txn_id ++ bytes))

-- What the first attribute that decides returns.
unfoldable pub first_read : List ℕ → List Attribute → Result Address StunError
first_read txn_id [] = err no_address
first_read txn_id ((attr_type, attr_data) ∷ attributes) =
    let rest = first_read txn_id attributes in
    elim (read_attribute txn_id attr_type attr_data) [ some result ↦ result | none ↦ rest ]

skip_lem :
    (txn_id pre rest : List ℕ)
    → parse_attributes txn_id (length pre) (pre ++ rest) ≡ parse_attributes txn_id 0 rest
unfolding parse_attributes
skip_lem txn_id [] rest = refl
skip_lem txn_id (b ∷ pre) rest = skip_lem txn_id pre rest

append_assoc : (xs ys zs : List ℕ) → (xs ++ ys) ++ zs ≡ xs ++ (ys ++ zs)
append_assoc [] ys zs = refl
append_assoc (x ∷ xs) ys zs = ap (◌∷◌ x) (append_assoc xs ys zs)

abbrev padding : List ℕ → List ℕ
padding attr_data = replicate (padded_len (length attr_data) - length attr_data) 0

length-padded :
    (attr_data : List ℕ) → length (attr_data ++ padding attr_data) ≡ padded_len (length attr_data)
length-padded attr_data =
    length-append attr_data (padding attr_data)
    ∙ ap (λ n. length attr_data + n)
        (length-replicate (padded_len (length attr_data) - length attr_data) 0)
    ∙ omega arith

-- One round of the loop at an attribute of this type and length.
abbrev round : List ℕ → List ℕ → ℕ → ℕ → Result Address StunError
round txn_id bytes attr_type attr_len =
    if ltb (length bytes) attr_len
    then err no_address
    else elim (read_attribute txn_id attr_type (take attr_len bytes)) [
      | some result ↦ result
      | none ↦ parse_attributes txn_id (padded_len attr_len) bytes
    ]

parse_attributes-round :
    (txn_id : List ℕ) (t0 t1 l0 l1 attr_type attr_len : ℕ) (bytes : List ℕ)
    → t0 * 256 + t1 ≡ attr_type
    → l0 * 256 + l1 ≡ attr_len
    → parse_attributes txn_id 0 (t0 ∷ t1 ∷ l0 ∷ l1 ∷ bytes) ≡ round txn_id bytes attr_type attr_len
unfolding parse_attributes
parse_attributes-round txn_id t0 t1 l0 l1 attr_type attr_len bytes e f =
    ap (λ t. round txn_id bytes t (l0 * 256 + l1)) e ∙ ap (round txn_id bytes attr_type) f

-- One round of the loop at an encoded attribute.
parse_attributes_step :
    (txn_id : List ℕ) (attr_type : ℕ) (attr_data rest : List ℕ)
    → parse_attributes txn_id 0 (encode_attribute (attr_type, attr_data) ++ rest)
      ≡ (elim (read_attribute txn_id attr_type attr_data) [
        | some result ↦ result
        | none ↦ parse_attributes txn_id 0 rest
      ])
unfolding parse_attributes
parse_attributes_step txn_id attr_type attr_data rest =
    let whole = append_assoc attr_data (padding attr_data) rest in
    let attr_type_back : attr_type / 256 * 256 + attr_type % 256 ≡ attr_type = omega arith in
    let len_back : length attr_data / 256 * 256 + length attr_data % 256 ≡ length attr_data =
      omega arith in
    let enough : ltb (length ((attr_data ++ padding attr_data) ++ rest)) (length attr_data)
        ≡ false =
      ground (
        arith,
        length-append (attr_data ++ padding attr_data) rest,
        length-append attr_data (padding attr_data),
      ) in
    let taken : take (length attr_data) ((attr_data ++ padding attr_data) ++ rest) ≡ attr_data =
      ap (take (length attr_data)) whole ∙ take-append attr_data (padding attr_data ++ rest) in
    let skipped : parse_attributes txn_id (padded_len (length attr_data))
          ((attr_data ++ padding attr_data) ++ rest)
        ≡ parse_attributes txn_id 0 rest =
      ap (λ k. parse_attributes txn_id k ((attr_data ++ padding attr_data) ++ rest))
        (sym (length-padded attr_data))
      ∙ skip_lem txn_id (attr_data ++ padding attr_data) rest in
    parse_attributes-round txn_id _ _ _ _ attr_type (length attr_data)
      ((attr_data ++ padding attr_data) ++ rest) attr_type_back len_back
    ∙ rw (enough, taken)
        (elim (Option-cases (read_attribute txn_id attr_type attr_data)) [
          | inl e ↦ rw e skipped
          | inr (result, e) ↦ rw e refl
        ])

parse_attributes-encode :
    (txn_id : List ℕ) (attributes : List Attribute)
    → parse_attributes txn_id 0 (encode_attributes attributes) ≡ first_read txn_id attributes
unfolding encode_attributes first_read parse_attributes
parse_attributes-encode txn_id [] = refl
parse_attributes-encode txn_id ((attr_type, attr_data) ∷ attributes) =
    parse_attributes_step txn_id attr_type attr_data (encode_attributes attributes)
    ∙ elim (Option-cases (read_attribute txn_id attr_type attr_data)) [
      | inl e ↦ rw (e, first_read) (parse_attributes-encode txn_id attributes)
      | inr (result, e) ↦ rw (e, first_read) refl
    ]

take_all : (xs : List ℕ) → take (length xs) xs ≡ xs
take_all [] = refl
take_all (x ∷ xs) = ap (◌∷◌ x) (take_all xs)

take-append_more :
    (n m : ℕ) (xs ys : List ℕ) → m ≡ length xs + n → take m (xs ++ ys) ≡ xs ++ take n ys
take-append_more n m [] ys e = let same : m ≡ n = omega arith in ap (λ k. take k ys) same
take-append_more n zero (x ∷ xs) ys e = absurd (omega arith)
take-append_more n (suc m) (x ∷ xs) ys e = ap (◌∷◌ x) (take-append_more n m xs ys (omega arith))

take_whole : (n : ℕ) (xs : List ℕ) → length xs ≤ n → take n xs ≡ xs
take_whole zero [] h = refl
take_whole zero (x ∷ xs) h = absurd (omega arith)
take_whole (suc n) [] h = refl
take_whole (suc n) (x ∷ xs) h = ap (◌∷◌ x) (take_whole n xs (omega arith))

length-take_less : (n : ℕ) (xs : List ℕ) → n ≤ length xs → length (take n xs) ≡ n
length-take_less zero xs h = refl
length-take_less (suc n) [] h = absurd (omega arith)
length-take_less (suc n) (x ∷ xs) h = ap suc (length-take_less n xs (omega arith))

ltb_same : (n : ℕ) → ltb n n ≡ false
ltb_same n = ground arith

leb_fits : (n m : ℕ) → leb n m ≡ true → n ≤ m
leb_fits n m h = ground arith

leb_longer : (n m : ℕ) → leb n m ≡ false → (m ≤ n) × (ltb m n ≡ true)
leb_longer n m h = (ground arith, ground arith)

-- A response of which these bytes of attributes are received.
abbrev received : List ℕ → ℕ → List ℕ → List ℕ
received txn_id size bytes =
    1 ∷ 1 ∷ (size / 256) ∷ (size % 256) ∷ (magic_cookie ++ (txn_id ++ bytes))

module _ (txn_id : List ℕ) (twelve : length txn_id ≡ 12) where
  length-received :
      (size : ℕ) (bytes : List ℕ) → length (received txn_id size bytes) ≡ 20 + length bytes
  length-received size bytes = omega (arith, length-append txn_id bytes, twelve)

  received_part :
      (size : ℕ) (bytes : List ℕ)
      → take response_size (received txn_id size bytes) ≡ received txn_id size (take 556 bytes)
  received_part size bytes =
      ap (λ l. 1 ∷ 1 ∷ (size / 256) ∷ (size % 256) ∷ (magic_cookie ++ l))
        (take-append_more 556 568 txn_id bytes (omega arith))

  -- The checks before the attributes.
  parse_received-received :
      (size : ℕ) (bytes : List ℕ)
      → size < 65536
      → parse_received txn_id (received txn_id size bytes) ≡ (
          if ltb (length bytes) size
          then err truncated
          else parse_attributes txn_id 0 (take size bytes))
  unfolding parse_received
  parse_received-received size bytes small =
      let size_back : size / 256 * 256 + size % 256 ≡ size = omega arith in
      let txn_read : take 12 (txn_id ++ bytes) ≡ txn_id =
        ap (λ n. take n (txn_id ++ bytes)) (sym twelve) ∙ take-append txn_id bytes in
      let rest_read : drop 12 (txn_id ++ bytes) ≡ bytes =
        ap (λ n. drop n (txn_id ++ bytes)) (sym twelve) ∙ drop-append txn_id bytes in
      let long : length (txn_id ++ bytes) ≡ 12 + length bytes =
        length-append txn_id bytes ∙ ap (λ n. n + length bytes) twelve in
      let whole = length (received txn_id size bytes) in
      let not_short : ltb whole 20 ≡ false = ground (arith, long) in
      let same : ltb whole (20 + size) ≡ ltb (length bytes) size = ground (arith, long) in
      rw (size_back, not_short, txn_read, text_eq_refl, same, rest_read) refl

-- A response to this request whose attributes have at most 556 bytes fits the buffer: the first
-- attribute that decides is read, whatever others stand around it, each padded to a multiple of 4
-- bytes. A longer one, below 64 KB, is refused as truncated.
pub parse_response-encode_response :
    (txn_id : List ℕ) (attributes : List Attribute)
    → length txn_id ≡ 12
    → length (encode_attributes attributes) < 65536
    → parse_response txn_id (encode_response txn_id attributes) ≡ (
        if leb (length (encode_attributes attributes)) 556
        then first_read txn_id attributes
        else err truncated)
unfolding parse_response
parse_response-encode_response txn_id attributes twelve small =
    let bytes = encode_attributes attributes in
    let size = length bytes in
    ap (parse_received txn_id) (received_part txn_id twelve size bytes)
    ∙ parse_received-received txn_id twelve size (take 556 bytes) small
    ∙ elim (Bool-cases (leb size 556)) [
      | inl fits ↦
          let whole : take 556 bytes ≡ bytes = take_whole 556 bytes (leb_fits size 556 fits) in
          rw (whole, fits, ltb_same size, take_all bytes)
            (parse_attributes-encode txn_id attributes)
      | inr long ↦
          let part : length (take 556 bytes) ≡ 556 =
            length-take_less 556 bytes (leb_longer size 556 long).0 in
          rw (part, long, (leb_longer size 556 long).1) refl
    ]

-- An attribute of another type, or a value that starts with a zero, as that of an address does in
-- RFC 5389, where the family is the second byte.
abbrev pub IsConforming : Attribute → Type 0
IsConforming (attr_type, attr_data) =
    ((attr_type == 0x20) ≡ false) × ((attr_type == 1) ≡ false) ⊎ (first_byte attr_data ≡ 0)

abbrev IsRefused : Option (Result Address StunError) → Type 0
IsRefused none = Unit
IsRefused (some result) = is_ok result ≡ false

xor_mapped_zero :
    (txn_id attr_data : List ℕ)
    → first_byte attr_data ≡ 0
    → is_ok (xor_mapped txn_id attr_data) ≡ false
unfolding xor_mapped xor_bits
xor_mapped_zero txn_id attr_data z =
    rw z (elim (Bool-cases (ltb (length attr_data) 4)) [ inl b ↦ rw b refl | inr b ↦ rw b refl ])

mapped-IsRefused : (attr_data : List ℕ) → first_byte attr_data ≡ 0 → IsRefused (mapped attr_data)
unfolding mapped
mapped-IsRefused attr_data z =
    rw z (elim (Bool-cases (ltb (length attr_data) 4)) [ inl b ↦ rw b refl | inr b ↦ rw b tt ])

read_attribute-IsRefused :
    (txn_id : List ℕ) (attr_type : ℕ) (attr_data : List ℕ)
    → IsConforming (attr_type, attr_data)
    → IsRefused (read_attribute txn_id attr_type attr_data)
unfolding read_attribute
read_attribute-IsRefused txn_id attr_type attr_data (inl (not_xor, not_mapped)) =
    rw (not_xor, not_mapped) tt
read_attribute-IsRefused txn_id attr_type attr_data (inr z) =
    elim (Bool-cases (attr_type == 0x20)) [
      | inl b ↦ rw b (xor_mapped_zero txn_id attr_data z)
      | inr b ↦ elim (Bool-cases (attr_type == 1)) [
        | inl c ↦ rw (b, c) (mapped-IsRefused attr_data z)
        | inr c ↦ rw (b, c) tt
      ]
    ]

first_read_conforming :
    (txn_id : List ℕ) (attributes : List Attribute)
    → All IsConforming attributes
    → is_ok (first_read txn_id attributes) ≡ false
unfolding first_read
first_read_conforming txn_id [] h = refl
first_read_conforming txn_id ((attr_type, attr_data) ∷ attributes) (conforms, h) =
    let refused = read_attribute-IsRefused txn_id attr_type attr_data conforms in
    elim (Option-cases (read_attribute txn_id attr_type attr_data)) [
      | inl e ↦ rw (e, first_read) (first_read_conforming txn_id attributes h)
      | inr (result, e) ↦ rw (e, first_read) (rw e at refused)
    ]

-- No address is read from a response to this request that is shorter than 64 KB and in which every
-- address starts with a zero byte before its family.
pub parse_response_conforming :
    (txn_id : List ℕ) (attributes : List Attribute)
    → length txn_id ≡ 12
    → length (encode_attributes attributes) < 65536
    → All IsConforming attributes
    → is_ok (parse_response txn_id (encode_response txn_id attributes)) ≡ false
parse_response_conforming txn_id attributes size small h =
    ap is_ok (parse_response-encode_response txn_id attributes size small)
    ∙ elim (Bool-cases (leb (length (encode_attributes attributes)) 556)) [
      | inl fits ↦ rw fits (first_read_conforming txn_id attributes h)
      | inr long ↦ rw long refl
    ]
