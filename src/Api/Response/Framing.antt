-- ===== src/Api/Response/Framing.antt =====
-- Reading a response back (src/api/response.rs).
use dsearch.Base.{
  ap, Bool, not, map, retain, ℕ, zero, suc, ◌/◌, ◌%◌, ◌+◌, ◌≡◌, refl, false, some, List, [], ◌∷◌,
  ◌++◌, ◌==◌, Text, codes, text_eq, length, as_bytes, encode_char, decimal, digits_from,
  starts_with, All, List-cases, ◌≢◌, Bool-cases, inl, inr, arith, ltb,
}
use mathlib.Core.List.{append_assoc, append-nil}
use dsearch.Api.Request.{split_blank, before_blank}
use dsearch.Api.Response.{
  HttpResponse, header_lines, head_lines, header_line, status_line, write_lines, to_bytes, crlf,
}

-- A text in which no carriage return stands.
abbrev pub IsOneLine : Text → Type 0
IsOneLine s = All (λ c. (c == 13) ≡ false) s

IsOneLine-append : (s t : Text) → IsOneLine s → IsOneLine t → IsOneLine (s ++ t)
IsOneLine-append [] t h g = g
IsOneLine-append (c ∷ s) t (p, h) g = (p, IsOneLine-append s t h g)

encode_char-IsOneLine : (c : ℕ) → (c == 13) ≡ false → IsOneLine (encode_char c)
unfolding encode_char
encode_char-IsOneLine c h = elim (Bool-cases (ltb c 128)) [
  | inl a ↦ rw a (h, tt)
  | inr a ↦ elim (Bool-cases (ltb c 2048)) [
    | inl b ↦ rw (a, b) (ground arith, (ground arith, tt))
    | inr b ↦ elim (Bool-cases (ltb c 65536)) [
      | inl d ↦ rw (a, b, d) (ground arith, (ground arith, (ground arith, tt)))
      | inr d ↦ rw (a, b, d) (ground arith, (ground arith, (ground arith, (ground arith, tt))))
    ]
  ]
]

pub as_bytes-IsOneLine : (s : Text) → IsOneLine s → IsOneLine (as_bytes s)
unfolding as_bytes
as_bytes-IsOneLine [] h = tt
as_bytes-IsOneLine (c ∷ s) (p, h) =
    IsOneLine-append (encode_char c) (as_bytes s) (encode_char-IsOneLine c p)
      (as_bytes-IsOneLine s h)

digits_from-IsOneLine : (fuel n : ℕ) (s : Text) → IsOneLine s → IsOneLine (digits_from fuel n s)
unfolding digits_from
digits_from-IsOneLine zero n s h = h
digits_from-IsOneLine (suc fuel) n s h = elim (Bool-cases (n / 10 == 0)) [
  | inl e ↦ rw e (ground arith, h)
  | inr e ↦ rw e (digits_from-IsOneLine fuel (n / 10) ((48 + n % 10) ∷ s) (ground arith, h))
]

decimal-IsOneLine : (n : ℕ) → IsOneLine (decimal n)
unfolding decimal
decimal-IsOneLine n = digits_from-IsOneLine 20 n [] tt

encode_char_nonempty : (c : ℕ) (t : List ℕ) → encode_char c ++ t ≢ []
unfolding encode_char
encode_char_nonempty c t = elim (Bool-cases (ltb c 128)) [
  | inl a ↦ rw a (λ e. cc)
  | inr a ↦ elim (Bool-cases (ltb c 2048)) [
    | inl b ↦ rw (a, b) (λ e. cc)
    | inr b ↦ elim (Bool-cases (ltb c 65536)) [
      | inl d ↦ rw (a, b, d) (λ e. cc)
      | inr d ↦ rw (a, b, d) (λ e. cc)
    ]
  ]
]

split_blank_now : (body : List ℕ) → split_blank (crlf ++ (crlf ++ body)) ≡ some ([], body)
unfolding split_blank starts_with
split_blank_now body = refl

-- A line does not end the search for the blank one.
split_blank-line :
    (line s head rest : Text)
    → IsOneLine line
    → split_blank s ≡ some (head, rest)
    → split_blank (line ++ s) ≡ some (line ++ head, rest)
unfolding split_blank starts_with
split_blank-line [] s head rest h found = found
split_blank-line (c ∷ line) s head rest (p, h) found = elim (Bool-cases (13 == c)) [
  | inl e ↦ absurd (ground arith)
  | inr e ↦ rw (e, split_blank-line line s head rest h found) refl
]

-- Neither does the end of a line with another behind it.
split_blank-crlf :
    (c : ℕ) (s head rest : Text)
    → (c == 13) ≡ false
    → split_blank (c ∷ s) ≡ some (head, rest)
    → split_blank (crlf ++ c ∷ s) ≡ some (crlf ++ head, rest)
unfolding split_blank starts_with
split_blank-crlf c s head rest p found = elim (Bool-cases (13 == c)) [
  | inl e ↦ absurd (ground arith)
  | inr e ↦
      let after : before_blank c (split_blank s) ≡ some (head, rest) = rw e at found in
      rw (e, after) refl
]

split_blank-next :
    (t : Text) (c : ℕ) (s head rest : Text)
    → t ≡ c ∷ s
    → (c == 13) ≡ false
    → split_blank t ≡ some (head, rest)
    → split_blank (crlf ++ t) ≡ some (crlf ++ head, rest)
split_blank-next t c s head rest e p found = rw e (split_blank-crlf c s head rest p (rw e at found))

-- A line that is written: not empty, and without a carriage return.
abbrev pub IsLine : Text → Type 0
IsLine [] = ⊥
IsLine (c ∷ s) = IsOneLine (c ∷ s)

-- The bytes before the blank line.
unfoldable pub head_bytes : Text → List Text → List ℕ
head_bytes line [] = as_bytes line
head_bytes line (next ∷ rest) = as_bytes line ++ (13 ∷ 10 ∷ head_bytes next rest)

-- The first byte of a line.
first_byte :
    (line : Text)
    → IsLine line
    → (c : ℕ) × (s : List ℕ) × (as_bytes line ≡ c ∷ s) × ((c == 13) ≡ false)
unfolding as_bytes
first_byte [] h = absurd h
first_byte (d ∷ line) h = elim (List-cases (as_bytes (d ∷ line))) [
  | inl e ↦ absurd (encode_char_nonempty d (as_bytes line) e)
  | inr (c, s, e) ↦ (c, s, e, (rw e at (as_bytes-IsOneLine (d ∷ line) h)).0)
]

line-IsOneLine : (line : Text) → IsLine line → IsOneLine line
line-IsOneLine [] h = absurd h
line-IsOneLine (c ∷ line) h = h

framed_lines :
    (line : Text) (rest : List Text) (body : List ℕ)
    → IsLine line
    → All IsLine rest
    → split_blank (write_lines (line ∷ rest) ++ (crlf ++ body)) ≡ some (head_bytes line rest, body)
unfolding write_lines head_bytes
framed_lines line [] body h hs = rw (append_assoc (as_bytes line) (crlf ++ []) (crlf ++ body)) (
    rw (append-nil (as_bytes line)) at (
      split_blank-line (as_bytes line) (crlf ++ (crlf ++ body)) [] body
        (as_bytes-IsOneLine line (line-IsOneLine line h)) (split_blank_now body)))
framed_lines line (next ∷ rest) body h (g, hs) =
    let after = write_lines (next ∷ rest) ++ (crlf ++ body) in
    let (c, s, e, p) = first_byte next g in
    rw (append_assoc (as_bytes line) (crlf ++ write_lines (next ∷ rest)) (crlf ++ body)) (
      split_blank-line (as_bytes line) (crlf ++ after) (crlf ++ head_bytes next rest) body
        (as_bytes-IsOneLine line (line-IsOneLine line h))
        (split_blank-next after c (s ++ (crlf ++ write_lines rest) ++ (crlf ++ body))
          (head_bytes next rest) body (rw e refl) p (framed_lines next rest body g hs)))

-- Headers whose names and values hold no carriage return.
abbrev pub IsPlain : List (Text × Text) → Type 0
IsPlain headers = All (λ h. IsOneLine h.0 × IsOneLine h.1) headers

header_line-IsLine :
    (key value : Text) → IsOneLine key → IsOneLine value → IsLine (header_line key value)
header_line-IsLine [] value h g = (refl, (refl, g))
header_line-IsLine (c ∷ key) value (p, h) g =
    (p, IsOneLine-append key (codes ": " ++ value) h (refl, (refl, g)))

module _ (to_lowercase : Text → Text) where
  header_lines-IsLine :
      (headers : List (Text × Text))
      → IsPlain headers
      → All IsLine (header_lines to_lowercase headers)
  unfolding header_lines
  header_lines-IsLine [] h = tt
  header_lines-IsLine ((key, value) ∷ headers) ((k, v), h) =
      elim (Bool-cases (text_eq (to_lowercase key) (codes "content-length"))) [
        | inl e ↦ rw e (header_lines-IsLine headers h)
        | inr e ↦ rw e (header_line-IsLine key value k v, header_lines-IsLine headers h)
      ]

  -- The headers other than the length of the body.
  abbrev pub is_other : Text × Text → Bool
  is_other (key, value) = not (text_eq (to_lowercase key) (codes "content-length"))

  abbrev pub print_header : Text × Text → Text
  print_header (key, value) = key ++ (58 ∷ 32 ∷ value)

  header_lines_lem :
      (headers : List (Text × Text))
      → header_lines to_lowercase headers ≡ map print_header (retain is_other headers)
  unfolding header_lines retain
  header_lines_lem [] = refl
  header_lines_lem ((key, value) ∷ headers) =
      elim (Bool-cases (text_eq (to_lowercase key) (codes "content-length"))) [
        | inl e ↦ rw e (header_lines_lem headers)
        | inr e ↦ rw e (ap (◌∷◌ (print_header (key, value))) (header_lines_lem headers))
      ]

  -- Where the text of the status and the headers hold no carriage return, reading a written
  -- response up to its first blank line gives these lines: the version, status and text; one with
  -- the length of the body; and one for each header, in their order, whose name is not
  -- content-length in any case. After the blank line stands exactly the body.
  pub split_blank-to_bytes :
      (resp : HttpResponse)
      → IsOneLine resp.status_text
      → IsPlain resp.headers
      → split_blank (to_bytes to_lowercase resp)
        ≡ some (
          head_bytes (codes "HTTP/1.1 " ++ (decimal resp.status ++ (32 ∷ resp.status_text))) (
              (codes "content-length: " ++ decimal (length resp.body))
              ∷ map print_header (retain is_other resp.headers)),
          resp.body,
        )
  unfolding to_bytes head_lines
  split_blank-to_bytes resp h plain = rw (← header_lines_lem resp.headers) (
      framed_lines (status_line resp)
        (header_line (codes "content-length") (decimal (length resp.body))
          ∷ header_lines to_lowercase resp.headers)
        resp.body
        (IsOneLine-append (codes "HTTP/1.1 ") _ (ground arith)
          (IsOneLine-append (decimal resp.status) _ (decimal-IsOneLine resp.status) (refl, h)))
        (
          header_line-IsLine (codes "content-length") (decimal (length resp.body)) (ground arith)
              (decimal-IsOneLine (length resp.body)),
          header_lines-IsLine resp.headers plain,
        ))
