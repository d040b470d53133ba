-- ===== src/Scraper/Feed.antt =====
-- Feeds (src/scraper/discovery/html_scrape.rs): the parser of RSS and Atom, and a run of a job. What
-- is read from the network is an argument, and so is the clock, by the number of the entry.
pub mod Blocks
use dsearch.Base.{
  ℕ, zero, suc, ◌+◌, ◌-◌, Bool, true, false, not, ◌&&◌, Option, none, some, List, [], ◌∷◌, ◌++◌,
  Result, ok, err, Text, codes, text_eq, ◌==◌, if◌then◌else◌, starts_with, contains, is_empty_text,
  split_once, lines, drop, length, map, as_bytes, decimal, add_u64,
}
use dsearch.Api.Platform.{Platform, StoreOf}
use dsearch.Api.Request.{trim}
use dsearch.Model.{ContentRecord}
use dsearch.Model.Source.{feed}
use dsearch.Model.Refresh.{interval}
use dsearch.Sanitize.{SanitizeError, sanitize_record}
use dsearch.Search.Matching.{strip_prefix}
use dsearch.Storage.Records.{InsertResult, inserted, skipped_older, replaced_newer}
use dsearch.Storage.Store.{StoreError, insert_record}
use dsearch.Trust.Normalize.{compute_source_hash}
use dsearch.Trust.Sign.{compute_record_id}

pub record FeedEntry : Type 0 where
  pub link : Text
  pub body : Text

abbrev pub open_of : Text → Text
open_of tag = 60 ∷ tag

abbrev pub close_of : Text → Text
close_of tag = 60 ∷ 47 ∷ (tag ++ 62 ∷ [])

-- Where the search for blocks stands: before an opening tag, within one, or in a block, with what
-- has been read of it.
pub data Place : Type 0 where
  outside in_tag : Place
  in_block : Text → Place

-- The blocks from a place on, after so many characters that are passed over. An opening tag ends
-- at the first `>` (62); a block without a closing tag is none.
unfoldable pub blocks_from : Text → Place → ℕ → Text → List Text
blocks_from tag place skipped [] = []
blocks_from tag place (suc skipped) (c ∷ s) = blocks_from tag place skipped s
blocks_from tag outside zero (c ∷ s) = elim (starts_with (open_of tag) (c ∷ s)) [
  | true ↦ blocks_from tag in_tag zero s
  | false ↦ blocks_from tag outside zero s
]
blocks_from tag in_tag zero (c ∷ s) = elim (c == 62) [
  | true ↦ blocks_from tag (in_block []) zero s
  | false ↦ blocks_from tag in_tag zero s
]
blocks_from tag (in_block block) zero (c ∷ s) = elim (starts_with (close_of tag) (c ∷ s)) [
  | true ↦ block ∷ blocks_from tag outside (length tag + 2) s
  | false ↦ blocks_from tag (in_block (block ++ c ∷ [])) zero s
]

unfoldable pub extract_xml_blocks : Text → Text → List Text
extract_xml_blocks xml tag = blocks_from tag outside 0 xml

abbrev pub before_first : ℕ → Option (Text × Text) → Option (Text × Text)
before_first c none = none
before_first c (some (before, rest)) = some (c ∷ before, rest)

-- The text before a pattern, and the text from it on.
unfoldable pub find_text : Text → Text → Option (Text × Text)
find_text pattern [] = if is_empty_text pattern then some ([], []) else none
find_text pattern (c ∷ s) =
    let rest = find_text pattern s in
    if starts_with pattern (c ∷ s) then some ([], c ∷ s) else before_first c rest

-- `strip_suffix`
unfoldable pub strip_suffix : Text → Text → Option Text
strip_suffix suffix [] = if is_empty_text suffix then some [] else none
strip_suffix suffix (c ∷ s) =
    let rest = strip_suffix suffix s in
    if text_eq suffix (c ∷ s)
    then some []
    else elim rest [ none ↦ none | some kept ↦ some (c ∷ kept) ]

abbrev pub or_else {ℓ} : {A : Type ℓ} → Option A → Option A → Option A
or_else none other = other
or_else (some a) other = some a

abbrev pub or_nothing : Option Text → Text
or_nothing none = []
or_nothing (some text) = text

-- `?` on an option.
infixl 5 ◌>>=◌
abbrev ◌>>=◌ {ℓ κ} : {A : Type ℓ} {B : Type κ} → Option A → (A → Option B) → Option B
none >>= f = none
some a >>= f = f a

-- What is inside the CDATA wrapper.
abbrev pub in_cdata : Text → Option Text
in_cdata text = do inner ← strip_prefix (codes "<![CDATA[") text; strip_suffix (codes "]]>") inner

abbrev pub text_or_none : Text → Option Text
text_or_none text = or_else (in_cdata text) (if is_empty_text text then none else some text)

-- The first tag of the name counts, also where it only begins with it; one that closes itself has
-- no text.
unfoldable pub extract_xml_text : Text → Text → Option Text
extract_xml_text block tag = do
  (before, from_tag) ← find_text (open_of tag) block
  (opening, content) ← split_once 62 from_tag
  (text, from_close) ← find_text (close_of tag) content
  elim (strip_suffix (codes "/") opening) [ some o ↦ none | none ↦ text_or_none (trim text) ]

-- The value of `href` in a line.
unfoldable pub href_of : Text → Option Text
href_of line = do
  (before, from_href) ← find_text (codes "href=\"") line
  (value, rest) ← split_once 34 (drop 6 from_href)
  some value

-- The first line with a link decides.
unfoldable pub link_of : List Text → Option Text
link_of [] = none
link_of (line ∷ rest) =
    let later = link_of rest in
    if contains line (codes "<link") && contains line (codes "href=") then href_of line else later

abbrev pub entry_body : Text → Text → Text
entry_body title description =
    if is_empty_text title
    then description
    else if is_empty_text description
    then title
    else title ++ (10 ∷ 10 ∷ description)

abbrev pub item_of : Text → FeedEntry
item_of block = record {
  link = or_nothing (extract_xml_text block (codes "link"));
  body = entry_body (or_nothing (extract_xml_text block (codes "title"))) (
      or_nothing (
        or_else (extract_xml_text block (codes "description"))
          (extract_xml_text block (codes "content:encoded"))));
}

abbrev pub entry_of : Text → FeedEntry
entry_of block = record {
  link = or_nothing (or_else (extract_xml_text block (codes "link")) (link_of (lines block)));
  body = entry_body (or_nothing (extract_xml_text block (codes "title"))) (
      or_nothing (
        or_else (extract_xml_text block (codes "summary"))
          (extract_xml_text block (codes "content"))));
}

-- The entries of blocks; those without a link are left out.
unfoldable pub linked : (Text → FeedEntry) → List Text → List FeedEntry
linked read [] = []
linked read (block ∷ blocks) =
    let rest = linked read blocks in
    if is_empty_text (read block).link then rest else read block ∷ rest

-- `none` is a text that is no feed.
unfoldable pub parse_feed : Text → Option (List FeedEntry)
parse_feed xml =
    let items = linked item_of (extract_xml_blocks xml (codes "item")) in
    let entries = linked entry_of (extract_xml_blocks xml (codes "entry")) in
    elim (items ++ entries) [
      | e ∷ es ↦ some (e ∷ es)
      | [] ↦
          if contains xml (codes "<item")
          then some []
          else if contains xml (codes "<entry")
          then some []
          else none
    ]

-- Also the result of a run on an interface.
pub record FeedScrapeResult : Type 0 where
  pub job_name : Text
  pub total : ℕ
  pub inserted_count : ℕ
  pub replaced_count : ℕ
  pub skipped_count : ℕ

pub data FeedError : Type 0 where
  fetch_failed : Text → FeedError
  no_entries : FeedError
  refused : SanitizeError → FeedError
  not_stored : StoreError → FeedError

abbrev pub count_insert : InsertResult → FeedScrapeResult → FeedScrapeResult
count_insert inserted counts = record counts { inserted_count = counts.inserted_count + 1 }
count_insert replaced_newer counts = record counts { replaced_count = counts.replaced_count + 1 }
count_insert skipped_older counts = record counts { skipped_count = counts.skipped_count + 1 }

abbrev pub no_counts : Text → ℕ → FeedScrapeResult
no_counts name total = record {
  job_name = name;
  total = total;
  inserted_count = 0;
  replaced_count = 0;
  skipped_count = 0;
}

module _ (P : Platform) where
  -- The records one after the other, each made at the time it is reached; the first that fails
  -- ends the run, and those before it stay.
  unfoldable pub store_entries :
      List (ℕ → ContentRecord)
      → (ℕ → ℕ)
      → StoreOf P
      → FeedScrapeResult
      → Result FeedScrapeResult FeedError × StoreOf P
  store_entries [] clock store counts = (ok counts, store)
  store_entries (make ∷ entries) clock store counts = elim (sanitize_record (make (clock 0))) [
    | err e ↦ (err (refused e), store)
    | ok clean ↦
        let ((result, store'), signed) =
          insert_record P.redb P.serde P.ed25519 P.signature_bytes store clean in
        elim result [
          | err e ↦ (err (not_stored e), store')
          | ok r ↦ store_entries entries (λ i. clock (suc i)) store' (count_insert r counts)
        ]
  ]

module _ (P : Platform) (name : Text) (ttl_secs : ℕ) where
  unfoldable pub feed_record : FeedEntry → ℕ → ContentRecord
  feed_record entry now =
      let source_hash = compute_source_hash P.to_lowercase P.blake3_hex entry.link in
      record {
        id =
            compute_record_id P.blake3_hex (as_bytes entry.link) (as_bytes source_hash)
              (as_bytes (codes "generic/kv")) [] (as_bytes entry.body) (as_bytes (decimal now));
        source_url = entry.link;
        source_hash = source_hash;
        schema = codes "generic/kv";
        tags = (codes "feed:" ++ name) ∷ [];
        body = entry.body;
        created_at = now;
        expires_at = add_u64 now ttl_secs;
        scrape_source = feed;
        refresh_policy = interval;
        sig = [];
      }

  unfoldable pub run_feed_job :
      StoreOf P → Result Text Text → (ℕ → ℕ) → Result FeedScrapeResult FeedError × StoreOf P
  run_feed_job store (err e) clock = (err (fetch_failed e), store)
  run_feed_job store (ok response) clock = elim (parse_feed response) [
    | none ↦ (err no_entries, store)
    | some entries ↦
        store_entries P (map feed_record entries) clock store (no_counts name (length entries))
  ]
