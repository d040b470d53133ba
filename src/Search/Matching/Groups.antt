-- ===== src/Search/Matching/Groups.antt =====
-- What queries of words, and of words and one OR, match (src/search/query.rs).
use dsearch.Base.{
  ◌≡◌, refl, ◌∙◌, ap, ◌&&◌, none, some, List, [], ◌∷◌, ◌++◌, Text, any, All, map, contains,
  starts_with, arith,
}
use dsearch.Model.{ContentRecord}
use dsearch.Search.Tokens.{tokenize}
use dsearch.Search.Query.{empty_query, or_mark, parse_query}
use dsearch.Search.Query.Plain.{IsWord, with_terms, parse_tokens_words}
use dsearch.Search.Matching.{
  every, strip_prefix, or_groups_from, or_groups, groups_match, build_searchable_text, fields_match,
  matches_query,
}

pub strip_mark : (t : Text) → strip_prefix or_mark (or_mark ++ t) ≡ some t
unfolding strip_prefix starts_with
strip_mark t = refl

abbrev IsUnmarked : Text → Type 0
IsUnmarked t = strip_prefix or_mark t ≡ none

-- Terms that carry no mark are groups of their own.
groups_unmarked :
    (searchable t : Text) (ts : List Text)
    → All IsUnmarked ts
    → groups_match searchable (or_groups_from (t ∷ []) ts)
      ≡ (contains searchable t && every (contains searchable) ts)
unfolding or_groups_from groups_match every any
groups_unmarked s t [] u = ground arith
groups_unmarked s t (v ∷ ts) (u, us) =
    rw (u, or_groups_from) (ground (arith, groups_unmarked s v ts us))

or_groups_unmarked :
    (searchable : Text) (ts : List Text)
    → All IsUnmarked ts
    → groups_match searchable (or_groups ts) ≡ every (contains searchable) ts
unfolding or_groups or_groups_from groups_match every
or_groups_unmarked s [] u = refl
or_groups_unmarked s (t ∷ ts) (u, us) = rw (u, or_groups_from) (groups_unmarked s t ts us)

module _ (to_lowercase : Text → Text) where
  pub terms_only :
      (r : ContentRecord) (ts : List Text)
      → matches_query to_lowercase r (with_terms to_lowercase ts empty_query)
        ≡ groups_match (build_searchable_text to_lowercase r) (or_groups ts)
  unfolding matches_query fields_match every
  terms_only r ts = refl

  -- A query whose tokens are all words matches a record exactly when the text of the record holds
  -- each of them in lower case. No word in lower case starts with "OR:".
  pub matches_words :
      (r : ContentRecord) (input : Text)
      → All IsWord (tokenize input)
      → All (λ t. strip_prefix or_mark t ≡ none) (map to_lowercase (tokenize input))
      → matches_query to_lowercase r (parse_query to_lowercase input)
        ≡ every
            (contains (build_searchable_text to_lowercase r))
            (map to_lowercase (tokenize input))
  unfolding parse_query
  matches_words r input w u =
      ap (matches_query to_lowercase r)
        (parse_tokens_words to_lowercase (tokenize input) empty_query w)
      ∙ terms_only r (map to_lowercase (tokenize input))
      ∙ or_groups_unmarked (build_searchable_text to_lowercase r)
          (map to_lowercase (tokenize input)) u
