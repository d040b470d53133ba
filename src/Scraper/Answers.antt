-- ===== src/Scraper/Answers.antt =====
-- Answers of interfaces that jobs ask (src/scraper/discovery/api.rs): the items of a JSON value, and a
-- run of a job. What is read from the network is an argument, and so is the clock.
use dsearch.Base.{
  ℕ, Bool, Option, none, some, List, [], ◌∷◌, Result, ok, err, Text, codes, if◌then◌else◌, map,
  length, as_bytes, decimal, add_u64,
}
use dsearch.Api.Platform.{Platform, StoreOf}
use dsearch.Model.{ContentRecord}
use dsearch.Model.Source.{api}
use dsearch.Model.Refresh.{interval}
use dsearch.Scraper.Feed.{
  FeedScrapeResult, FeedError, fetch_failed, no_entries, no_counts, or_else, store_entries,
}
use dsearch.Trust.Normalize.{compute_source_hash}
use dsearch.Trust.Sign.{compute_record_id}

pub record ApiItem : Type 0 where
  pub source_url : Text
  pub schema : Text
  pub tags : List Text
  pub body : Text

-- What kind a value of JSON is.
pub record Kinds (P : Platform) : Type 0 where
  pub as_array : P.json.Value → Option (List P.json.Value)
  pub is_object : P.json.Value → Bool

module _ (P : Platform) (K : Kinds P) where
  abbrev pub text_or : Text → Option P.json.Value → Text
  text_or missing none = missing
  text_or missing (some v) = elim (P.json.as_str v) [ none ↦ missing | some t ↦ t ]

  unfoldable pub texts_of : List P.json.Value → List Text
  texts_of [] = []
  texts_of (v ∷ vs) =
      let rest = texts_of vs in elim (P.json.as_str v) [ none ↦ rest | some t ↦ t ∷ rest ]

  abbrev pub tags_of : Option P.json.Value → List Text
  tags_of none = []
  tags_of (some v) = elim (K.as_array v) [ none ↦ [] | some vs ↦ texts_of vs ]

  -- The second field counts only where the first is not there, whatever the first holds.
  unfoldable pub read_item : P.json.Value → ApiItem
  read_item item = record {
    source_url =
        text_or (codes "api://unknown")
          (or_else (P.json.get (codes "url") item) (P.json.get (codes "source_url") item));
    schema = text_or (codes "generic/kv") (P.json.get (codes "schema") item);
    tags = tags_of (P.json.get (codes "tags") item);
    body =
        text_or (P.json.to_string item)
          (or_else (P.json.get (codes "body") item) (P.json.get (codes "content") item));
  }

  -- `none` is an answer that does not read, or is neither an array nor an object.
  unfoldable pub parse_api_response : Text → Option (List ApiItem)
  parse_api_response response = elim (P.json.from_str response) [
    | err e ↦ none
    | ok value ↦ elim (K.as_array value) [
      | some values ↦ some (map read_item values)
      | none ↦ if K.is_object value then some (read_item value ∷ []) else none
    ]
  ]

  module _ (name : Text) (ttl_secs : ℕ) where
    unfoldable pub api_record : ApiItem → ℕ → ContentRecord
    api_record item now =
        let source_hash = compute_source_hash P.to_lowercase P.blake3_hex item.source_url in
        record {
          id =
              compute_record_id P.blake3_hex (as_bytes item.source_url) (as_bytes source_hash)
                (as_bytes item.schema) [] (as_bytes item.body) (as_bytes (decimal now));
          source_url = item.source_url;
          source_hash = source_hash;
          schema = item.schema;
          tags = item.tags;
          body = item.body;
          created_at = now;
          expires_at = add_u64 now ttl_secs;
          scrape_source = api;
          refresh_policy = interval;
          sig = [];
        }

    unfoldable pub run_api_job :
        StoreOf P → Result Text Text → (ℕ → ℕ) → Result FeedScrapeResult FeedError × StoreOf P
    run_api_job store (err e) clock = (err (fetch_failed e), store)
    run_api_job store (ok response) clock = elim (parse_api_response response) [
      | none ↦ (err no_entries, store)
      | some items ↦
          store_entries P (map api_record items) clock store (no_counts name (length items))
    ]
