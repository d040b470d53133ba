-- ===== src/Api/Request/Accepted.antt =====
-- What holds of a request that is accepted (src/api/request.rs).
use dsearch.Base.{
  ℕ, ◌≤◌, ◌≡◌, ◌≢◌, inl, inr, Bool, false, Option, none, some, List, [], ◌∷◌, Result, ok, Text,
  codes, text_eq, text_eq_iff, any, length, lookup, put, without, length-without-le, byte_len,
  split_once, split_on, lines, ltb, leb, ◌==◌, All, arith, Bool-cases, Option-cases, bind_ok,
  u64_mod, ◌-◌,
}
use dsearch.Search.Dates.{parse_number}
use dsearch.Api.Request.{
  HttpRequest, RequestError, max_headers, max_header_value_len, max_body_size, validate_path,
  percent_decode, trim, check_body, check_content_length, add_header, parse_headers, parse_lines,
  parse_http_request, split_uri, body_of, parse_request_line, parse_query_string,
}

-- A path without null bytes and without a segment "..".
pub record IsSafePath (path : Text) : Type 0 where
  pub no_null : All (λ c. c ≢ 0) path
  pub no_traversal : All (λ segment. segment ≢ codes "..") (split_on 47 path)

-- At most 64 headers, with values of at most 8192 bytes.
pub record IsBounded (headers : List (Text × Text)) : Type 0 where
  pub few : length headers ≤ 64
  pub short : All (λ h. byte_len h.1 ≤ 8192) headers

none_of {ℓ} :
    {A : Type ℓ} (p : A → Bool) (P : A → Type 0) (l : List A)
    → ((x : A) → p x ≡ false → P x)
    → any p l ≡ false
    → All P l
unfolding any
none_of p P [] f h = tt
none_of p P (x ∷ l) f h = (f x (ground arith), none_of p P l f (ground arith))

validate_path-IsSafePath :
    (path : Text) (u : Unit {0}) → validate_path path ≡ ok u → IsSafePath path
unfolding validate_path
validate_path-IsSafePath path u accepted = elim (Bool-cases (any (λ c. c == 0) path)) [
  | inl b ↦ absurd (cc (rw b at accepted))
  | inr b ↦ elim (Bool-cases (any (λ segment. text_eq segment (codes "..")) (split_on 47 path))) [
    | inl c ↦ absurd (cc (rw (b, c) at accepted))
    | inr c ↦ record {
      no_null = none_of (λ c. c == 0) _ path (λ x h e. ground arith) b;
      no_traversal =
          none_of (λ segment. text_eq segment (codes "..")) _ (split_on 47 path)
            (λ x h e. ground (arith, text_eq_iff x (codes ".."))) c;
    }
  ]
]

All-without {ℓ} :
    {V : Type ℓ} (P : Text × V → Type 0) (k : Text) (l : List (Text × V))
    → All P l
    → All P (without k l)
unfolding without
All-without P k [] h = tt
All-without P k ((j, v) ∷ l) (p, h) = elim (Bool-cases (text_eq j k)) [
  | inl b ↦ rw b (All-without P k l h)
  | inr b ↦ rw b (p, All-without P k l h)
]

module _ (to_lowercase : Text → Text) where
  add_header-IsBounded :
      (line : Text) (headers headers' : List (Text × Text))
      → IsBounded headers
      → add_header to_lowercase line headers ≡ ok headers'
      → IsBounded headers'
  unfolding add_header put
  add_header-IsBounded line headers headers' bounded added =
      elim (Bool-cases (leb max_headers (length headers))) [
        | inl full ↦ absurd (cc (rw full at added))
        | inr room ↦ elim (Option-cases (split_once 58 line)) [
          | inl no_colon ↦
              let same : headers ≡ headers' = cc (rw (room, no_colon) at added) in
              rw (← same) bounded
          | inr ((name, text), found) ↦
              elim (Bool-cases (ltb max_header_value_len (byte_len (trim text)))) [
                | inl long ↦ absurd (cc (rw (room, found, long) at added))
                | inr short ↦
                    let key = to_lowercase (trim name) in
                    let same : put key (trim text) headers ≡ headers' =
                      cc (rw (room, found, short) at added) in
                    rw (← same) (record {
                      few = ground (arith, length-without-le key headers);
                      short = (ground arith, All-without _ key headers bounded.short);
                    })
              ]
        ]
      ]

  parse_headers-IsBounded :
      (rest : List Text) (headers headers' : List (Text × Text))
      → IsBounded headers
      → parse_headers to_lowercase rest headers ≡ ok headers'
      → IsBounded headers'
  unfolding parse_headers
  parse_headers-IsBounded [] headers headers' bounded h =
      let same : headers ≡ headers' = cc in rw (← same) bounded
  parse_headers-IsBounded ([] ∷ rest) headers headers' bounded h =
      let same : headers ≡ headers' = cc in rw (← same) bounded
  parse_headers-IsBounded ((c ∷ line) ∷ rest) headers headers' bounded h =
      bind_ok (add_header to_lowercase (c ∷ line) headers) (parse_headers to_lowercase rest)
        headers' h
        λ next added then_rest.
          parse_headers-IsBounded rest next headers'
            (add_header-IsBounded (c ∷ line) headers next bounded added) then_rest

check_body-le : (body : Text) (u : Unit {0}) → check_body body ≡ ok u → byte_len body ≤ 1048576
unfolding check_body
check_body-le body u accepted = elim (Bool-cases (ltb max_body_size (byte_len body))) [
  | inl long ↦ absurd (cc (rw long at accepted))
  | inr short ↦ ground arith
]

-- A declared length is a number, and at most 1 MB.
abbrev pub IsDeclared : Option Text → Type 0
IsDeclared none = Unit
IsDeclared (some cl) = (n : ℕ) × (parse_number (u64_mod - 1) cl ≡ some n) × (n ≤ 1048576)

check_content_length-IsDeclared :
    (declared : Option Text) (u : Unit {0})
    → check_content_length declared ≡ ok u
    → IsDeclared declared
unfolding check_content_length
check_content_length-IsDeclared none u accepted = tt
check_content_length-IsDeclared (some cl) u accepted =
    elim (Option-cases (parse_number (u64_mod - 1) cl)) [
      | inl e ↦ absurd (cc (rw (e, check_content_length) at accepted))
      | inr (n, e) ↦ elim (Bool-cases (ltb max_body_size n)) [
        | inl long ↦ absurd (cc (rw (e, long, check_content_length) at accepted))
        | inr short ↦ (n, e, ground arith)
      ]
    ]

abbrev IsAccepted : HttpRequest → Type 0
IsAccepted request =
    IsSafePath (percent_decode request.path)
    × IsBounded request.headers
    × (byte_len request.body ≤ 1048576)
    × IsDeclared (lookup (codes "content-length") request.headers)

no_headers : IsBounded []
no_headers = record { few = omega arith; short = tt }

built :
    (raw path method query : Text) (headers : List (Text × Text)) (request : HttpRequest)
    → IsSafePath (percent_decode path)
    → IsBounded headers
    → byte_len (body_of raw) ≤ 1048576
    → IsDeclared (lookup (codes "content-length") headers)
    → ◌≡◌ {A = Result HttpRequest RequestError}
        (ok (record {
          method = method;
          path = path;
          query = parse_query_string query;
          headers = headers;
          body = body_of raw;
        }))
        (ok request)
    → IsAccepted request
built raw path method query headers request safe bounded small declared made =
    let same : ◌≡◌ {A = HttpRequest}
        (record {
          method = method;
          path = path;
          query = parse_query_string query;
          headers = headers;
          body = body_of raw;
        })
        request =
      cc in
    rw (← same) (safe, bounded, small, declared)

parse_lines-IsAccepted :
    (to_lowercase : Text → Text) (raw : Text) (ls : List Text) (request : HttpRequest)
    → parse_lines to_lowercase raw ls ≡ ok request
    → IsAccepted request
unfolding parse_lines
parse_lines-IsAccepted to_lowercase raw [] request h = absurd (cc)
parse_lines-IsAccepted to_lowercase raw (request_line ∷ header_lines) request accepted =
    bind_ok (parse_request_line request_line) _ request accepted λ (method, full_uri) read h1.
      bind_ok (validate_path (percent_decode (split_uri full_uri).0)) _ request h1 λ u safe h2.
        bind_ok (parse_headers to_lowercase header_lines []) _ request h2 λ headers parsed h3.
          bind_ok (check_body (body_of raw)) _ request h3 λ v small h4.
            bind_ok (check_content_length (lookup (codes "content-length") headers)) _ request h4
              λ w declared made.
                built raw (split_uri full_uri).0 method (split_uri full_uri).1 headers request
                  (validate_path-IsSafePath _ u safe)
                  (parse_headers-IsBounded to_lowercase header_lines [] headers no_headers parsed)
                  (check_body-le _ v small) (check_content_length-IsDeclared _ w declared) made

-- An accepted request has a path that, decoded, has no null byte and no segment "..". It has at
-- most 64 headers, with values of at most 8192 bytes, and a body of at most 1 MB; its content-length
-- header, if there is one, is a number and at most 1 MB.
pub parse_http_request_accepted :
    (to_lowercase : Text → Text) (raw : Text) (request : HttpRequest)
    → parse_http_request to_lowercase raw ≡ ok request
    → IsSafePath (percent_decode request.path)
      × IsBounded request.headers
      × (byte_len request.body ≤ 1048576)
      × IsDeclared (lookup (codes "content-length") request.headers)
unfolding parse_http_request
parse_http_request_accepted to_lowercase raw request accepted =
    parse_lines-IsAccepted to_lowercase raw (lines raw) request accepted
