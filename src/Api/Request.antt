-- ===== src/Api/Request.antt =====
-- The parser of HTTP requests (src/api/request.rs). Lower-casing follows the tables of Unicode, and
-- is a parameter.
pub mod Accepted
pub mod Escapes
use dsearch.Base.{
  ℕ, ◌-◌, ◌*◌, ◌+◌, Bool, true, false, not, ◌&&◌, ◌||◌, Option, none, some, List, [], ◌∷◌, ◌++◌,
  ltb, leb, ◌==◌, if◌then◌else◌, Result, ok, err, ◌>>=◌, Text, codes, text_eq, any, length, lookup,
  put, byte_len, hex_digit, hex_pair, split_once, split_on, lines, starts_with, drop, u64_mod,
  is_empty_text,
}
use dsearch.Search.Tokens.{is_whitespace}
use dsearch.Search.Dates.{parse_number}

pub record HttpRequest : Type 0 where
  pub method : Text
  pub path : Text
  pub query : List (Text × Text)
  pub headers : List (Text × Text)
  pub body : Text

abbrev pub max_headers : ℕ
max_headers = 64

abbrev pub max_header_value_len : ℕ
max_header_value_len = 8192

abbrev pub max_body_size : ℕ
max_body_size = 1048576

pub data RequestError : Type 0 where
  empty_request malformed_request_line null_byte path_traversal : RequestError
  too_many_headers invalid_content_length : RequestError
  header_value_too_long : Text → RequestError
  body_too_large content_length_too_large : ℕ → RequestError

-- Null bytes, and segments between slashes (47) that are "..", are refused.
unfoldable pub validate_path : Text → Result (Unit {0}) RequestError
validate_path path =
    if any (λ c. c == 0) path
    then err null_byte
    else if any (λ segment. text_eq segment (codes "..")) (split_on 47 path)
    then err path_traversal
    else ok tt

-- What stands for an escape and the characters after its percent sign (37): the character of the
-- byte, or the text as it was.
abbrev pub escape : Option ℕ → Text → Text → Text
escape none raw rest = 37 ∷ (raw ++ rest)
escape (some byte) raw rest = byte ∷ rest

abbrev pub plus_or : ℕ → ℕ
plus_or c = if c == 43 then 32 else c

-- Up to two characters after a percent sign are read as a byte.
unfoldable pub percent_decode : Text → Text
percent_decode [] = []
percent_decode (c ∷ []) = if c == 37 then c ∷ [] else plus_or c ∷ []
percent_decode (c ∷ a ∷ []) = elim (c == 37) [
  | true ↦ escape (hex_digit a) (a ∷ []) []
  | false ↦ plus_or c ∷ percent_decode (a ∷ [])
]
percent_decode (c ∷ a ∷ b ∷ s) = elim (c == 37) [
  | true ↦ escape (hex_pair a b) (a ∷ b ∷ []) (percent_decode s)
  | false ↦ plus_or c ∷ percent_decode (a ∷ b ∷ s)
]

-- One pair of a query string; the equals sign is 61.
unfoldable pub add_pair : Text → List (Text × Text) → List (Text × Text)
add_pair pair query = if is_empty_text pair then query else elim (split_once 61 pair) [
  | none ↦ put (percent_decode pair) [] query
  | some (key, value) ↦ put (percent_decode key) (percent_decode value) query
]

unfoldable pub add_pairs : List Text → List (Text × Text) → List (Text × Text)
add_pairs [] query = query
add_pairs (pair ∷ pairs) query = add_pairs pairs (add_pair pair query)

-- The pairs stand between ampersands (38).
unfoldable pub parse_query_string : Text → List (Text × Text)
parse_query_string qs = if is_empty_text qs then [] else add_pairs (split_on 38 qs) []

unfoldable pub trim_start : Text → Text
trim_start [] = []
trim_start (c ∷ s) = let rest = trim_start s in if is_whitespace c then rest else c ∷ s

abbrev pub push_kept : ℕ → Text → Text
push_kept c [] = if is_whitespace c then [] else c ∷ []
push_kept c (d ∷ s) = c ∷ d ∷ s

unfoldable pub trim_end : Text → Text
trim_end [] = []
trim_end (c ∷ s) = push_kept c (trim_end s)

unfoldable pub trim : Text → Text
trim s = trim_end (trim_start s)

abbrev pub blank_line : Text
blank_line = 13 ∷ 10 ∷ 13 ∷ 10 ∷ []

abbrev pub before_blank : ℕ → Option (Text × Text) → Option (Text × Text)
before_blank c none = none
before_blank c (some (head, rest)) = some (c ∷ head, rest)

-- The text before the first blank line and the text after it.
unfoldable pub split_blank : Text → Option (Text × Text)
split_blank [] = none
split_blank (c ∷ s) =
    let rest = split_blank s in
    if starts_with blank_line (c ∷ s) then some ([], drop 4 (c ∷ s)) else before_blank c rest

-- The second part of the request, between its first two blank lines.
unfoldable pub body_of : Text → Text
body_of raw = elim (split_blank raw) [
  | none ↦ []
  | some (head, rest) ↦ elim (split_blank rest) [ none ↦ rest | some (body, more) ↦ body ]
]

-- The request line: the method before the first space (32), and the URI after it, up to a second.
unfoldable pub parse_request_line : Text → Result (Text × Text) RequestError
parse_request_line line = elim (split_once 32 line) [
  | none ↦ err malformed_request_line
  | some (method, rest) ↦ elim (split_once 32 rest) [
    | none ↦ ok (method, rest)
    | some (full_uri, version) ↦ ok (method, full_uri)
  ]
]

-- The path, and the query string after the question mark (63), if there is one.
unfoldable pub split_uri : Text → Text × Text
split_uri full_uri = elim (split_once 63 full_uri) [ none ↦ (full_uri, []) | some parts ↦ parts ]

unfoldable pub check_body : Text → Result (Unit {0}) RequestError
check_body body =
    if ltb max_body_size (byte_len body) then err (body_too_large (byte_len body)) else ok tt

abbrev pub check_declared : Option ℕ → Result (Unit {0}) RequestError
check_declared none = err invalid_content_length
check_declared (some declared) =
    if ltb max_body_size declared then err (content_length_too_large declared) else ok tt

unfoldable pub check_content_length : Option Text → Result (Unit {0}) RequestError
check_content_length none = ok tt
check_content_length (some cl) = check_declared (parse_number (u64_mod - 1) cl)

module _ (to_lowercase : Text → Text) where
  -- One header; a line without a colon (58) is passed over.
  unfoldable pub add_header : Text → List (Text × Text) → Result (List (Text × Text)) RequestError
  add_header line headers =
      if leb max_headers (length headers) then err too_many_headers else elim (split_once 58 line) [
        | none ↦ ok headers
        | some (name, text) ↦
            if ltb max_header_value_len (byte_len (trim text))
            then err (header_value_too_long (to_lowercase (trim name)))
            else ok (put (to_lowercase (trim name)) (trim text) headers)
      ]

  -- The headers end at an empty line.
  unfoldable pub parse_headers :
      List Text → List (Text × Text) → Result (List (Text × Text)) RequestError
  parse_headers [] headers = ok headers
  parse_headers ([] ∷ rest) headers = ok headers
  parse_headers ((c ∷ line) ∷ rest) headers = do
    headers' ← add_header (c ∷ line) headers
    parse_headers rest headers'

  -- The request whose lines are these.
  unfoldable pub parse_lines : Text → List Text → Result HttpRequest RequestError
  parse_lines raw [] = err empty_request
  parse_lines raw (request_line ∷ header_lines) = do
    (method, full_uri) ← parse_request_line request_line
    _ ← validate_path (percent_decode (split_uri full_uri).0)
    headers ← parse_headers header_lines []
    _ ← check_body (body_of raw)
    _ ← check_content_length (lookup (codes "content-length") headers)
    ok (record {
      method = method;
      path = (split_uri full_uri).0;
      query = parse_query_string (split_uri full_uri).1;
      headers = headers;
      body = body_of raw;
    })

  unfoldable pub parse_http_request : Text → Result HttpRequest RequestError
  parse_http_request raw = parse_lines raw (lines raw)
