-- ===== src/Scraper/Job.antt =====
-- One run of a job with a URL (src/scraper/job.rs). What is read from the network is an argument,
-- and so is the clock.
pub mod Scraped
pub mod Base64
use dsearch.Base.{
  ℕ, ◌-◌, ◌+◌, ◌*◌, ◌/◌, ◌%◌, ◌^◌, ◌<◌, Bool, true, false, ◌&&◌, Option, none, some, List, [], ◌∷◌,
  ◌++◌, Result, ok, err, ◌>>=◌, Text, codes, text_eq, ltb, leb, ◌==◌, if◌then◌else◌, as_bytes,
  decimal, add_u64, starts_with, drop, u32_mod,
}
use dsearch.Api.Request.{split_blank}
use dsearch.Model.{ContentRecord}
use dsearch.Model.Source.{url}
use dsearch.Model.Refresh.{once}
use dsearch.Sanitize.{SanitizeError, sanitize_record}
use dsearch.Search.Dates.{parse_number}
use dsearch.Storage.Records.{InsertResult, inserted, skipped_older, replaced_newer}
use dsearch.Storage.Store.{StoreError, insert_record}
use dsearch.Api.Platform.{Platform, StoreOf}
use dsearch.Trust.Normalize.{compute_source_hash, break_at}
use dsearch.Trust.Sign.{compute_record_id}

pub record ScrapeResult : Type 0 where
  pub job_name : Text
  pub record_id : Text
  pub was_inserted : Bool
  pub was_replaced : Bool

pub data JobError : Type 0 where
  fetch_failed : Text → JobError
  refused : SanitizeError → JobError
  not_stored : StoreError → JobError

pub data UrlError : Type 0 where
  unsupported_scheme invalid_port : UrlError

pub record Url : Type 0 where
  pub host : Text
  pub path : Text
  pub port : ℕ
  pub is_https : Bool

abbrev pub before_last : ℕ → Option (Text × Text) → Option (Text × Text)
before_last c none = none
before_last c (some (front, back)) = some (c ∷ front, back)

-- What stands before and after the last such character (`rfind`).
unfoldable pub split_last : ℕ → Text → Option (Text × Text)
split_last sep [] = none
split_last sep (c ∷ s) = elim (split_last sep s) [
  | some parts ↦ some (c ∷ parts.0, parts.1)
  | none ↦ if c == sep then some ([], s) else none
]

abbrev pub default_port : Bool → ℕ
default_port is_https = if is_https then 443 else 80

abbrev pub port_of : Text → Option ℕ → Result (Text × ℕ) UrlError
port_of host none = err invalid_port
port_of host (some port) = ok (host, port)

-- The host and the port, after the last colon (58) if there is one.
unfoldable pub parse_host : Bool → Text → Result (Text × ℕ) UrlError
parse_host is_https host_port = elim (split_last 58 host_port) [
  | none ↦ ok (host_port, default_port is_https)
  | some (host, port) ↦ port_of host (parse_number 65535 port)
]

abbrev pub or_root : Text → Text
or_root [] = codes "/"
or_root (c ∷ s) = c ∷ s

-- What follows the scheme; the path starts at the first slash (47).
unfoldable pub parse_after_scheme : Bool → Text → Result Url UrlError
parse_after_scheme is_https rest = do
  (host, port) ← parse_host is_https (break_at 47 rest).0
  ok (record { host = host; path = or_root (break_at 47 rest).1; port = port; is_https = is_https })

unfoldable pub parse_url : Text → Result Url UrlError
parse_url text =
    if starts_with (codes "https://") text
    then parse_after_scheme true (drop 8 text)
    else if starts_with (codes "http://") text
    then parse_after_scheme false (drop 7 text)
    else err unsupported_scheme

-- The text after the first blank line that ends with newlines (10) alone.
unfoldable pub after_newlines : Text → Option Text
after_newlines [] = none
after_newlines (c ∷ s) =
    let later = after_newlines s in
    if starts_with (10 ∷ 10 ∷ []) (c ∷ s) then some (drop 2 (c ∷ s)) else later

-- The body of a response, after its first blank line.
unfoldable pub response_body : Text → Text
response_body response = elim (split_blank response) [
  | some (head, body) ↦ body
  | none ↦ elim (after_newlines response) [ none ↦ response | some body ↦ body ]
]

-- The value of a digit of base 64. The source compares the last eight bits of a character.
unfoldable pub base64_value : ℕ → Option ℕ
base64_value ch =
    let b = ch % 256 in
    if leb 65 b && leb b 90
    then some (b - 65)
    else if leb 97 b && leb b 122
    then some (b - 71)
    else if leb 48 b && leb b 57
    then some (b + 4)
    else if b == 43
    then some 62
    else if b == 47
    then some 63
    else none

-- `trim_end_matches('=')`
unfoldable pub trim_padding : Text → Text
trim_padding [] = []
trim_padding (c ∷ s) = elim (trim_padding s) [
  | [] ↦ if c == 61 then [] else c ∷ []
  | d ∷ rest ↦ c ∷ d ∷ rest
]

abbrev pub push_decoded : ℕ → Option (List ℕ) → Option (List ℕ)
push_decoded b none = none
push_decoded b (some bytes) = some (b ∷ bytes)

-- The characters from here on, with a word of 32 bits that holds some bits which are not written
-- yet.
unfoldable pub decode_chars : ℕ → ℕ → Text → Option (List ℕ)
decode_chars acc bits [] = some []
decode_chars acc bits (ch ∷ s) = elim (base64_value ch) [
  | none ↦ none
  | some val ↦
      let acc' = acc * 64 % u32_mod + val in
      if leb 2 bits
      then push_decoded (acc' / 2 ^ (bits - 2) % 256) (decode_chars acc' (bits - 2) s)
      else decode_chars acc' (bits + 6) s
]

unfoldable pub base64_decode : Text → Option (List ℕ)
base64_decode input = decode_chars 0 0 (trim_padding input)

abbrev pub is_inserted : InsertResult → Bool
is_inserted inserted = true
is_inserted replaced_newer = false
is_inserted skipped_older = false

abbrev pub is_replaced : InsertResult → Bool
is_replaced inserted = false
is_replaced replaced_newer = true
is_replaced skipped_older = false

module _ (P : Platform) where
  -- The record of a page: its id is that of the content before it is sanitized, with no tags.
  unfoldable pub scraped_record : Text → Text → Text → ℕ → Text → ℕ → ContentRecord
  scraped_record name target lifecycle ttl_secs body now =
      let source_hash = compute_source_hash P.to_lowercase P.blake3_hex target in
      record {
        id =
            compute_record_id P.blake3_hex (as_bytes target) (as_bytes source_hash)
              (as_bytes (codes "generic/kv")) [] (as_bytes body) (as_bytes (decimal now));
        source_url = target;
        source_hash = source_hash;
        schema = codes "generic/kv";
        tags = (codes "scraper:" ++ name) ∷ [];
        body = body;
        created_at = now;
        expires_at = if text_eq lifecycle (codes "pinned") then 0 else add_u64 now ttl_secs;
        scrape_source = url;
        refresh_policy = once;
        sig = [];
      }

  abbrev pub scrape_result :
      Text → Text → Result InsertResult StoreError → Result ScrapeResult JobError
  scrape_result name id (err e) = err (not_stored e)
  scrape_result name id (ok result) = ok (record {
    job_name = name;
    record_id = id;
    was_inserted = is_inserted result;
    was_replaced = is_replaced result;
  })

  -- `fetched` is what fetching the target gives.
  unfoldable pub run_url_job :
      StoreOf P
      → Text
      → Text
      → Text
      → ℕ
      → Result Text Text
      → ℕ
      → Result ScrapeResult JobError × StoreOf P
  run_url_job store name target lifecycle ttl_secs (err e) now = (err (fetch_failed e), store)
  run_url_job store name target lifecycle ttl_secs (ok body) now =
      elim (sanitize_record (scraped_record name target lifecycle ttl_secs body now)) [
        | err e ↦ (err (refused e), store)
        | ok clean ↦
            let ((result, store'), signed) =
              insert_record P.redb P.serde P.ed25519 P.signature_bytes store clean in
            (scrape_result name signed.id result, store')
      ]
