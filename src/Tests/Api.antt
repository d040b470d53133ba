-- ===== src/Tests/Api.antt =====
-- Runs of the gateway's keys and of the request parser, and the theorems at them.
use dsearch.Base.{
  ℕ, ◌≤◌, ◌≡◌, refl, true, ◌||◌, Option, none, some, List, [], ◌∷◌, ok, Text, codes, lookup,
  replicate, any, byte_len, text_eq, hex_pair, split_once, split_on, lines, starts_with, put,
  without, hex_digit, char_size, arith,
}
use dsearch.Api.Keys.{
  GatewayKeyInfo, KeyCodec, IsKeyCodec, create_key, revoke_key, validate_key, existing_keys,
  new_key, write_keys,
}
use dsearch.Api.Keys.Accepted.{is_key_of, create_key-validate_key, revoke_key-create_key}
use dsearch.Api.Request.{
  HttpRequest, parse_http_request, parse_lines, parse_request_line, parse_headers, add_header,
  validate_path, percent_decode, split_uri, body_of, split_blank, check_body, check_content_length,
  parse_query_string, trim, trim_end, trim_start, add_pair, add_pairs,
}
use dsearch.Api.Request.Accepted.{IsSafePath, IsBounded, IsDeclared, parse_http_request_accepted}
use dsearch.Api.Request.Escapes.{parse_query_string-print_pairs, print_pairs, put_pairs}
use dsearch.Search.Dates.{digits_value, parse_number}
use dsearch.Search.Tokens.{is_whitespace}
use dsearch.Tests.Codec.{put_text, get_text, get_number, get-put_text}

-- A codec of lists of at most one key; digests and digits are the bytes themselves.
abbrev write_list : List GatewayKeyInfo → Option Text
write_list [] = some []
write_list (k ∷ []) =
    some (
      put_text k.nickname (put_text k.key_hash (k.created_at ∷ k.last_used ∷ k.request_count ∷ [])))
write_list (k ∷ l ∷ ks) = none

abbrev read_key : Text → Option (List GatewayKeyInfo)
read_key = get_text λ nickname. get_text λ key_hash. get_number λ created_at.
    get_number λ last_used. get_number λ request_count _. some (
      record {
        nickname = nickname;
        key_hash = key_hash;
        created_at = created_at;
        last_used = last_used;
        request_count = request_count;
      }
      ∷ [])

abbrev read_list : Text → Option (List GatewayKeyInfo)
read_list [] = some []
read_list (c ∷ s) = read_key (c ∷ s)

abbrev pub small_codec : KeyCodec
small_codec = record {
  to_json = write_list;
  from_json = read_list;
  hex_encode = λ bytes. bytes;
  hex_decode = λ t. some t;
  blake3_hex = λ bytes. bytes;
}

read-write_key :
    (k : GatewayKeyInfo)
    → read_key (
        put_text k.nickname
          (put_text k.key_hash (k.created_at ∷ k.last_used ∷ k.request_count ∷ [])))
      ≡ some (k ∷ [])
read-write_key k = simp (get-put_text)

read-write_list :
    (keys : List GatewayKeyInfo) (t : Text) → write_list keys ≡ some t → read_list t ≡ some keys
read-write_list [] t h = let same : [] ≡ t = cc in rw (← same) refl
read-write_list (k ∷ []) t h =
    let text : Text =
      put_text k.nickname
        (put_text k.key_hash (k.created_at ∷ k.last_used ∷ k.request_count ∷ [])) in
    let same : text ≡ t = cc in rw (← same) (read-write_key k)
read-write_list (k ∷ l ∷ ks) t h = absurd (cc)

small_codec-IsKeyCodec : IsKeyCodec small_codec
small_codec-IsKeyCodec = record { json_read = read-write_list; hex_read = λ bytes h. refl }

abbrev secret : List ℕ
secret = replicate 32 7

abbrev info : GatewayKeyInfo
info = record {
  nickname = codes "first";
  key_hash = secret;
  created_at = 9;
  last_used = 0;
  request_count = 0;
}

creates : (create_key small_codec none (codes "first") 9 secret).0 ≡ ok (secret, info)
unfolding create_key existing_keys new_key write_keys any
creates = refl

no_keys : small_codec.to_json (existing_keys small_codec none) ≡ some []
unfolding existing_keys
no_keys = refl

create_key-validate_key_example :
    (validate_key small_codec (create_key small_codec none (codes "first") 9 secret).1 secret
      ≡ true)
    × ((raw_key : Text)
        → validate_key small_codec (create_key small_codec none (codes "first") 9 secret).1 raw_key
          ≡ (validate_key small_codec none raw_key || is_key_of small_codec (info ∷ []) raw_key))
create_key-validate_key_example =
    create_key-validate_key small_codec small_codec-IsKeyCodec none (codes "first") 9 secret secret
      info refl (omega arith) creates

revoke_key-create_key_example :
    ((revoke_key small_codec
        (create_key small_codec none (codes "first") 9 secret).1
        (codes "first")).0
      ≡ ok true)
    × ((raw_key : Text)
        → validate_key small_codec
            (revoke_key small_codec
              (create_key small_codec none (codes "first") 9 secret).1
              (codes "first")).1
            raw_key
          ≡ validate_key small_codec none raw_key)
revoke_key-create_key_example =
    revoke_key-create_key small_codec small_codec-IsKeyCodec none (codes "first") 9 secret secret
      info [] creates no_keys

abbrev same : Text → Text
same t = t

-- A request with an escaped path, one pair and one header.
abbrev request_text : Text
request_text = codes "GET /a%2Fb?q=%41 HTTP/1.1\r\nhost: h\r\n\r\nhi"

abbrev request : HttpRequest
request = record {
  method = codes "GET";
  path = codes "/a%2Fb";
  query = (codes "q", codes "A") ∷ [];
  headers = (codes "host", codes "h") ∷ [];
  body = codes "hi";
}

parses : parse_http_request same request_text ≡ ok request
unfolding parse_http_request parse_lines lines parse_request_line split_once validate_path any
    percent_decode split_uri hex_pair split_on text_eq parse_headers add_header byte_len trim
    trim_end trim_start add_pair add_pairs body_of check_body check_content_length
    parse_query_string split_blank hex_digit lookup put without char_size starts_with digits_value
    parse_number is_whitespace
parses = refl

parse_http_request_accepted_example :
    IsSafePath (percent_decode request.path)
    × IsBounded request.headers
    × (byte_len request.body ≤ 1048576)
    × IsDeclared (lookup (codes "content-length") request.headers)
parse_http_request_accepted_example = parse_http_request_accepted same request_text request parses

parse_query_string-print_pairs_example :
    parse_query_string (print_pairs ((codes "a", codes "1 2") ∷ (codes "a", codes "&") ∷ []))
    ≡ put_pairs ((codes "a", codes "1 2") ∷ (codes "a", codes "&") ∷ []) []
parse_query_string-print_pairs_example =
    parse_query_string-print_pairs ((codes "a", codes "1 2") ∷ (codes "a", codes "&") ∷ [])
      (omega arith)
