-- ===== src/Scraper/Job/Base64.antt =====
-- Base 64 as it is written, and read by the certificates' loader (src/scraper/job.rs).
use dsearch.Base.{
  ℕ, ◌+◌, ◌-◌, ◌*◌, ◌/◌, ◌%◌, ◌^◌, ◌<◌, ◌≡◌, refl, ap, ◌∙◌, true, some, List, [], ◌∷◌, Text, ltb,
  ◌==◌, leb, if◌then◌else◌, All, arith, u32_mod, inl, inr, List-cases,
}
use dsearch.Scraper.Job.{base64_value, trim_padding, decode_chars, base64_decode, push_decoded}

-- The digit of a value (RFC 4648, section 4).
unfoldable pub digit64 : ℕ → ℕ
digit64 v =
    if ltb v 26
    then 65 + v
    else if ltb v 52
    then 71 + v
    else if ltb v 62
    then v - 4
    else if v == 62
    then 43
    else 47

base64_value-digit64 : (v : ℕ) → v < 64 → base64_value (digit64 v) ≡ some v
unfolding base64_value digit64
base64_value-digit64 v h = ground arith

-- Three bytes are four digits.
unfoldable pub encode64 : List ℕ → Text
encode64 [] = []
encode64 (a ∷ []) = digit64 (a / 4) ∷ digit64 (a % 4 * 16) ∷ 61 ∷ 61 ∷ []
encode64 (a ∷ b ∷ []) =
    digit64 (a / 4) ∷ digit64 (a % 4 * 16 + b / 16) ∷ digit64 (b % 16 * 4) ∷ 61 ∷ []
encode64 (a ∷ b ∷ c ∷ bytes) =
    digit64 (a / 4)
    ∷ digit64 (a % 4 * 16 + b / 16)
    ∷ digit64 (b % 16 * 4 + c / 64)
    ∷ digit64 (c % 64)
    ∷ encode64 bytes

push_next :
    (acc v : ℕ) (s : Text)
    → v < 64
    → decode_chars acc 0 (digit64 v ∷ s) ≡ decode_chars (acc * 64 % u32_mod + v) 6 s
unfolding decode_chars
push_next acc v s h = rw (base64_value-digit64 v h, decode_chars) refl

push_write :
    (acc bits v : ℕ) (s : Text)
    → v < 64
    → leb 2 bits ≡ true
    → decode_chars acc bits (digit64 v ∷ s)
      ≡ push_decoded
          ((acc * 64 % u32_mod + v) / 2 ^ (bits - 2) % 256)
          (decode_chars (acc * 64 % u32_mod + v) (bits - 2) s)
unfolding decode_chars
push_write acc bits v s h full = rw (base64_value-digit64 v h, decode_chars, full) refl

-- The word after one more digit.
abbrev word : ℕ → ℕ → ℕ
word acc v = acc * 64 % u32_mod + v

-- Two digits from the start give a byte.
push_two :
    (acc u v : ℕ) (s : Text)
    → u < 64
    → v < 64
    → decode_chars acc 0 (digit64 u ∷ digit64 v ∷ s)
      ≡ push_decoded (u * 4 + v / 16) (decode_chars (word (word acc u) v) 4 s)
push_two acc u v s hu hv =
    let byte : word (word acc u) v / 16 % 256 ≡ u * 4 + v / 16 = omega arith in
    push_next acc u (digit64 v ∷ s) hu
    ∙ push_write (word acc u) 6 v s hv refl
    ∙ ap (λ b. push_decoded b (decode_chars (word (word acc u) v) 4 s)) byte

-- A third digit gives the next byte.
push_third :
    (acc v w : ℕ) (s : Text)
    → v < 64
    → w < 64
    → decode_chars (word acc v) 4 (digit64 w ∷ s)
      ≡ push_decoded (v % 16 * 16 + w / 4) (decode_chars (word (word acc v) w) 2 s)
push_third acc v w s hv hw =
    let byte : word (word acc v) w / 4 % 256 ≡ v % 16 * 16 + w / 4 = omega arith in
    push_write (word acc v) 4 w s hw refl
    ∙ ap (λ b. push_decoded b (decode_chars (word (word acc v) w) 2 s)) byte

push_fourth :
    (acc w x : ℕ) (s : Text)
    → w < 64
    → x < 64
    → decode_chars (word acc w) 2 (digit64 x ∷ s)
      ≡ push_decoded (w % 4 * 64 + x) (decode_chars (word (word acc w) x) 0 s)
push_fourth acc w x s hw hx =
    let byte : word (word acc w) x / 1 % 256 ≡ w % 4 * 64 + x = omega arith in
    push_write (word acc w) 2 x s hx refl
    ∙ ap (λ b. push_decoded b (decode_chars (word (word acc w) x) 0 s)) byte

trim_digit : (v : ℕ) (s : Text) → v < 64 → trim_padding (digit64 v ∷ s) ≡ digit64 v ∷ trim_padding s
unfolding trim_padding digit64
trim_digit v s h = elim (List-cases (trim_padding s)) [
  | inl e ↦ rw (e, trim_padding) (ground arith)
  | inr (d, rest, e) ↦ rw (e, trim_padding) refl
]

no_padding : trim_padding (61 ∷ 61 ∷ []) ≡ []
unfolding trim_padding
no_padding = refl

no_text : trim_padding [] ≡ []
unfolding trim_padding
no_text = refl

one_padding : trim_padding (61 ∷ []) ≡ []
unfolding trim_padding
one_padding = refl

nothing_left : (acc bits : ℕ) → decode_chars acc bits [] ≡ some []
unfolding decode_chars
nothing_left acc bits = refl

decode_chars-encode64 :
    (acc : ℕ) (bytes : List ℕ)
    → All (λ b. b < 256) bytes
    → decode_chars acc 0 (trim_padding (encode64 bytes)) ≡ some bytes
unfolding encode64
decode_chars-encode64 acc [] h = rw no_text (nothing_left acc 0)
decode_chars-encode64 acc (a ∷ []) (p, h) =
    let first : a / 4 * 4 + a % 4 * 16 / 16 ≡ a = omega arith in
    rw (trim_digit (a / 4) (digit64 (a % 4 * 16) ∷ 61 ∷ 61 ∷ []) (omega arith)) (
      rw (trim_digit (a % 4 * 16) (61 ∷ 61 ∷ []) (omega arith), no_padding)
        (rw
          (
            push_two acc (a / 4) (a % 4 * 16) [] (omega arith) (omega arith),
            nothing_left (word (word acc (a / 4)) (a % 4 * 16)) 4,
            first,
          )
          refl))
decode_chars-encode64 acc (a ∷ b ∷ []) (p, (q, h)) =
    let u = a / 4 in
    let v = a % 4 * 16 + b / 16 in
    let w = b % 16 * 4 in
    let first : u * 4 + v / 16 ≡ a = omega arith in
    let second : v % 16 * 16 + w / 4 ≡ b = omega arith in
    rw (trim_digit u (digit64 v ∷ digit64 w ∷ 61 ∷ []) (omega arith)) (
      rw (trim_digit v (digit64 w ∷ 61 ∷ []) (omega arith)) (
        rw (trim_digit w (61 ∷ []) (omega arith), one_padding)
          (rw
            (
              push_two acc u v (digit64 w ∷ []) (omega arith) (omega arith),
              push_third (word acc u) v w [] (omega arith) (omega arith),
              nothing_left (word (word (word acc u) v) w) 2,
              first,
              second,
            )
            refl)))
decode_chars-encode64 acc (a ∷ b ∷ c ∷ bytes) (p, (q, (r, h))) =
    let u = a / 4 in
    let v = a % 4 * 16 + b / 16 in
    let w = b % 16 * 4 + c / 64 in
    let x = c % 64 in
    let rest = trim_padding (encode64 bytes) in
    let first : u * 4 + v / 16 ≡ a = omega arith in
    let second : v % 16 * 16 + w / 4 ≡ b = omega arith in
    let third : w % 4 * 64 + x ≡ c = omega arith in
    rw (trim_digit u (digit64 v ∷ digit64 w ∷ digit64 x ∷ encode64 bytes) (omega arith)) (
      rw (trim_digit v (digit64 w ∷ digit64 x ∷ encode64 bytes) (omega arith)) (
        rw (trim_digit w (digit64 x ∷ encode64 bytes) (omega arith)) (
          rw (trim_digit x (encode64 bytes) (omega arith)) (
            rw
              (
                push_two acc u v (digit64 w ∷ digit64 x ∷ rest) (omega arith) (omega arith),
                push_third (word acc u) v w (digit64 x ∷ rest) (omega arith) (omega arith),
                push_fourth (word (word acc u) v) w x rest (omega arith) (omega arith),
                decode_chars-encode64 (word (word (word (word acc u) v) w) x) bytes h,
                first,
                second,
                third,
              )
              refl))))

-- The encoding of bytes in base 64, with its padding, is decoded to those bytes.
pub base64_decode-encode64 :
    (bytes : List ℕ) → All (λ b. b < 256) bytes → base64_decode (encode64 bytes) ≡ some bytes
unfolding base64_decode
base64_decode-encode64 bytes h = decode_chars-encode64 0 bytes h
