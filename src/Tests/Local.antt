-- ===== src/Tests/Local.antt =====
-- Runs of the local interface and of the gateway, and the theorems at them.
use dsearch.Base.{
  map, retain, decimal, ℕ, ◌+◌, ◌≡◌, ◌≤◌, refl, Bool, true, false, not, ◌&&◌, ◌||◌, Option, none,
  some, List, [], ◌∷◌, ◌++◌, Result, ok, Text, codes, text_eq, lookup, length, arith, starts_with,
  put, without, any, as_bytes, encode_char, decimal, digits_from, lookup_empty, is_some,
  if◌then◌else◌, leb,
}
use dsearch.Api.Gateway.{
  Gateway, extract_api_key, identifier_of, handle_request, handle_gateway_connection, invalid_key,
  serve, gateway_route,
}
use dsearch.Api.Gateway.Guarded.{
  with_counts, IsServed, handle_gateway_connection-kept, handle_request-IsServed,
  handle_request_invented_key,
}
use dsearch.Api.Keys.{check_rate_limit, current_entry, validate_key}
use dsearch.Api.Local.{body_field, parse_body}
use dsearch.Api.Local.Peers.{handle_ban_peer, is_banned}
use dsearch.Api.Local.Peers.Banned.{is_banned-handle_ban_peer}
use dsearch.Api.Local.Reads.{handle_health}
use dsearch.Api.Local.Upkeep.{import_records, no_imports, Imported, import_record}
use dsearch.Api.Platform.{Clock, StoreOf}
use dsearch.Api.Request.{HttpRequest}
use dsearch.Api.Response.{
  HttpResponse, json, ok_response, new, with_node_headers, to_bytes, header_line, header_lines,
  status_line,
}
use dsearch.Api.Response.Framing.{
  IsOneLine, IsPlain, head_bytes, print_header, is_other, split_blank-to_bytes,
}
use dsearch.Api.Request.{split_blank}
use dsearch.Model.{ContentRecord}
use dsearch.Storage.Store as Store
use dsearch.Tests.Api.{small_codec}
use dsearch.Tests.Codec.{codec, get_texts, put_texts}
use dsearch.Tests.Facade.{store}
use dsearch.Tests.Platform.{small_platform, small_json-IsJson}
use dsearch.Tests.Store.{first}

abbrev request : Text → Text → List (Text × Text) → Text → HttpRequest
request method path query body = record {
  method = method;
  path = path;
  query = query;
  headers = [];
  body = body;
}

abbrev field_body : Text → Text → Text
field_body name value =
    let value = small_platform.json.string value in small_platform.json.object ((name, value) ∷ [])

abbrev ban_request : HttpRequest
ban_request =
    request (codes "POST") (codes "/peers/ban") [] (field_body (codes "peer_id") (codes "p"))

ban_accepted : body_field small_platform ban_request (codes "peer_id") ≡ ok (codes "p")
unfolding body_field parse_body lookup text_eq get_texts put_texts
ban_accepted = refl

is_banned-handle_ban_peer_example :
    is_banned small_platform
      (codes "q")
      (handle_ban_peer small_platform (codes "n") ban_request none).1
    ≡ (text_eq (codes "p") (codes "q") || is_banned small_platform (codes "q") none)
is_banned-handle_ban_peer_example =
    is_banned-handle_ban_peer small_platform small_json-IsJson (codes "n") ban_request none
      (codes "p") (codes "q") ban_accepted

-- Two records, the second one as the first.
abbrev once_counted : Imported
once_counted = record { inserted_count = 1; replaced_count = 0; skipped_count = 1; error_count = 0 }

imports :
    (import_records small_platform (first ∷ first ∷ []) no_imports store).0 ≡ some once_counted
unfolding import_records import_record no_imports dsearch.Sanitize.sanitize_record
    dsearch.Sanitize.sanitize_string dsearch.Sanitize.validate_body_size dsearch.Base.byte_len
    dsearch.Sanitize.sanitize_chars dsearch.Sanitize.is_control dsearch.Sanitize.is_format_char
    dsearch.Base.char_size dsearch.Sanitize.sanitize_tags Store.insert_record
    dsearch.Storage.Store.Signing.sign_if_needed Store.new Store.insert_signed
    dsearch.Storage.Records.insert_record dsearch.Model.validate_record_size
    dsearch.Tests.Codec.write_record dsearch.Storage.Records.insert_deduped
    dsearch.Api.Local.Upkeep.count_error dsearch.Api.Local.Upkeep.count_result decimal digits_from
    dsearch.Base.to_hex any as_bytes encode_char dsearch.Base.join text_eq
    dsearch.Storage.Db.records_size_bytes dsearch.Storage.Index.append_id
    dsearch.Storage.Index.index_key dsearch.Storage.Index.index_record
    dsearch.Storage.Index.index_tag dsearch.Storage.Index.parse_tag
    dsearch.Storage.Index.split_comma dsearch.Storage.Records.commit_insert
    dsearch.Storage.Records.dedup dsearch.Storage.Records.exceeds_quota
    dsearch.Storage.Records.put_record dsearch.Storage.Records.remove_existing
    dsearch.Storage.Store.Signing.record_fields Store.index_inserted Store.indexed_outcome put_texts
    dsearch.Trust.Sign.canonical_encode_fields dsearch.Trust.Sign.encode_record
    dsearch.Trust.Sign.sign_record dsearch.Trust.Sign.verify_record_sig lookup
    dsearch.Tests.Codec.read_record
imports = refl

-- The response to a health check, and its head.
abbrev healthy : HttpResponse
healthy = with_node_headers (codes "n") (json (codes "{}"))

healthy-IsPlain : IsPlain healthy.headers
unfolding with_node_headers json ok_response new put without text_eq
healthy-IsPlain = ground arith

plain_text : IsOneLine healthy.status_text
unfolding with_node_headers json ok_response new
plain_text = ground arith

split_blank-to_bytes_example :
    split_blank (to_bytes (λ t. t) healthy)
    ≡ some (
      head_bytes (codes "HTTP/1.1 " ++ (decimal healthy.status ++ (32 ∷ healthy.status_text))) (
          (codes "content-length: " ++ decimal (length healthy.body))
          ∷ map (print_header (λ t. t)) (retain (is_other (λ t. t)) healthy.headers)),
      healthy.body,
    )
split_blank-to_bytes_example = split_blank-to_bytes (λ t. t) healthy plain_text healthy-IsPlain

-- A gateway that requires a key and has none.
abbrev gateway : Gateway small_platform
gateway = record {
  node_id = codes "n";
  store = store;
  keys_file = none;
  rate_limits = [];
  rate_limit = 5;
  require_key = false;
}

abbrev noon : Clock
noon = record { instant = 7; now = 100 }

handle_gateway_connection-kept_example :
    (handle_gateway_connection small_platform small_codec gateway noon
      (codes "ip")
      (codes "GET / HTTP/1.1")).1
    ≡ with_counts small_platform gateway
        (handle_gateway_connection small_platform small_codec gateway noon
          (codes "ip")
          (codes "GET / HTTP/1.1")).1
handle_gateway_connection-kept_example =
    handle_gateway_connection-kept small_platform small_codec gateway noon (codes "ip")
      (codes "GET / HTTP/1.1")

abbrev health_request : HttpRequest
health_request = request (codes "GET") (codes "/health") [] []

served :
    (handle_request small_platform small_codec gateway noon (codes "ip") health_request).0.status
    ≡ 200
unfolding handle_request check_rate_limit current_entry lookup serve extract_api_key text_eq
    gateway_route handle_health with_node_headers json ok_response new
served = refl

handle_request-IsServed_example :
    ((check_rate_limit [] 100 (identifier_of (extract_api_key health_request) (codes "ip")) 5).0
      ≡ true)
    × IsServed small_platform small_codec gateway health_request
handle_request-IsServed_example =
    handle_request-IsServed small_platform small_codec gateway noon (codes "ip") health_request
      served

abbrev invented_request : HttpRequest
invented_request = request (codes "GET") (codes "/health") ((codes "api_key", codes "k") ∷ []) []

invented : extract_api_key invented_request ≡ some (codes "k")
unfolding extract_api_key lookup text_eq
invented = refl

not_valid : validate_key small_codec none (codes "k") ≡ false
unfolding validate_key
not_valid = refl

handle_request_invented_key_example :
    (handle_request small_platform small_codec gateway noon (codes "ip") invented_request).0
    ≡ invalid_key
handle_request_invented_key_example =
    handle_request_invented_key small_platform small_codec gateway noon (codes "ip") (codes "k")
      invented_request invented (lookup_empty (codes "k")) (omega arith) not_valid

-- A store with a record whose id is the digest.
abbrev verified_record : ContentRecord
verified_record = record first { id = codes "00" }

abbrev stocked : StoreOf small_platform
stocked = record store {
  db = record store.db { records = (codes "00", codec.to_json verified_record) ∷ [] };
}

abbrev announce_request : HttpRequest
announce_request =
    request (codes "POST") (codes "/record/announce") [] (field_body (codes "id") (codes "00"))
