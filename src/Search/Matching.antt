-- ===== src/Search/Matching.antt =====
-- Which records match a search query (src/search/query.rs).
pub mod Groups
pub mod Alternatives
use dsearch.Base.{
  ℕ, Bool, true, false, not, ◌&&◌, ◌||◌, Option, none, some, List, [], ◌∷◌, ◌++◌, ltb, leb, ◌==◌,
  if◌then◌else◌, Text, text_eq, codes, any, starts_with, contains, length, drop,
}
use dsearch.Model.{ContentRecord}
use dsearch.Model.Source as Source
use dsearch.Model.Refresh as Refresh
use dsearch.Search.Query.{ParsedQuery, or_mark}

-- Every element passes the test (`all`, or a loop that returns false at the first that does not).
unfoldable pub every : (Text → Bool) → List Text → Bool
every p [] = true
every p (x ∷ xs) = p x && every p xs

-- `strip_prefix`
unfoldable pub strip_prefix : Text → Text → Option Text
strip_prefix p s = if starts_with p s then some (drop (length p) s) else none

-- The text up to the first slash (47) or colon (58).
unfoldable pub host_part : Text → Text
host_part [] = []
host_part (c ∷ s) = if (c == 47) || (c == 58) then [] else c ∷ host_part s

unfoldable pub extract_host : Text → Option Text
extract_host url = elim (strip_prefix (codes "https://") url) [
  | some rest ↦ some (host_part rest)
  | none ↦ elim (strip_prefix (codes "http://") url) [
    | some rest ↦ some (host_part rest)
    | none ↦ none
  ]
]

-- `lines().next()`: up to the first newline (10), without a carriage return (13) before it.
unfoldable pub first_line : Text → Text
first_line [] = []
first_line (c ∷ []) = if c == 10 then [] else c ∷ []
first_line (c ∷ d ∷ s) =
    if c == 10 then [] else if (c == 13) && (d == 10) then [] else c ∷ first_line (d ∷ s)

unfoldable pub tags_text : List Text → Text
tags_text [] = []
tags_text (t ∷ ts) = t ++ 32 ∷ tags_text ts

-- One round of the loop that groups the terms: an OR-term joins the current group, another term
-- starts a new one.
unfoldable pub or_groups_from : List Text → List Text → List (List Text)
or_groups_from [] [] = []
or_groups_from (t ∷ group) [] = (t ∷ group) ∷ []
or_groups_from group (term ∷ terms) = elim (strip_prefix or_mark term) [
  | some stripped ↦ or_groups_from (group ++ stripped ∷ []) terms
  | none ↦ elim group [
    | [] ↦ or_groups_from (term ∷ []) terms
    | t ∷ ts ↦ (t ∷ ts) ∷ or_groups_from (term ∷ []) terms
  ]
]

unfoldable pub or_groups : List Text → List (List Text)
or_groups terms = or_groups_from [] terms

unfoldable pub groups_match : Text → List (List Text) → Bool
groups_match searchable [] = true
groups_match searchable (group ∷ groups) =
    any (λ t. contains searchable t) group && groups_match searchable groups

module _ (to_lowercase : Text → Text) where
  unfoldable pub build_searchable_text : ContentRecord → Text
  build_searchable_text r =
      to_lowercase (r.id ++ 32 ∷ r.source_url ++ 32 ∷ r.schema ++ 32 ∷ tags_text r.tags ++ r.body)

  abbrev host_matches : Option Text → Text → Bool
  host_matches none value = false
  host_matches (some host) value = contains (to_lowercase host) value

  -- The test of one field filter; a field of another name is passed over.
  unfoldable pub field_matches : ContentRecord → Text → Text → Bool
  field_matches r field value =
      if text_eq field (codes "schema")
      then contains (to_lowercase r.schema) value
      else if text_eq field (codes "source")
      then host_matches (extract_host r.source_url) value
      else if text_eq field (codes "scraped")
      then text_eq (Source.as_str r.scrape_source) value
      else if text_eq field (codes "refresh")
      then text_eq (Refresh.as_str r.refresh_policy) value
      else if text_eq field (codes "tag")
      then any (λ t. text_eq (to_lowercase t) value) r.tags
      else if text_eq field (codes "title")
      then contains (to_lowercase (r.id ++ 32 ∷ r.source_url ++ 32 ∷ first_line r.body)) value
      else true

  unfoldable pub fields_match : ContentRecord → List (Text × Text) → Bool
  fields_match r [] = true
  fields_match r ((field, value) ∷ fields) = field_matches r field value && fields_match r fields

  abbrev pub not_before : Option ℕ → ℕ → Bool
  not_before none t = true
  not_before (some since) t = not (ltb t since)

  abbrev pub not_since : Option ℕ → ℕ → Bool
  not_since none t = true
  not_since (some before) t = not (leb before t)

  unfoldable pub matches_query : ContentRecord → ParsedQuery → Bool
  matches_query r query =
      let searchable = build_searchable_text r in
      fields_match r query.fields
      && not_before query.since r.created_at
      && not_since query.before r.created_at
      && every (λ e. not (contains searchable e)) query.excludes
      && every (λ p. contains searchable p) query.phrases
      && groups_match searchable (or_groups query.terms)
