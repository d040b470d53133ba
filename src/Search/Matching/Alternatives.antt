-- ===== src/Search/Matching/Alternatives.antt =====
-- What queries with one OR match (src/search/query.rs).
use dsearch.Base.{
  starts_with, ◌≡◌, refl, ◌∙◌, ap, false, ◌||◌, none, List, [], ◌∷◌, ◌++◌, Text, text_eq, codes,
  any, contains, arith,
}
use dsearch.Model.{ContentRecord}
use dsearch.Search.Tokens.{tokenize}
use dsearch.Search.Query.{empty_query, or_mark, mark_last, parse_token, parse_tokens, parse_query}
use dsearch.Search.Query.Plain.{IsWord, with_terms, parse_token_word}
use dsearch.Search.Matching.{
  strip_prefix, or_groups_from, or_groups, groups_match, build_searchable_text, matches_query,
}
use dsearch.Search.Matching.Groups.{strip_mark, terms_only}

two_alternatives :
    (searchable x y : Text)
    → groups_match searchable (or_groups ((or_mark ++ x) ∷ (or_mark ++ y) ∷ []))
      ≡ (contains searchable x || contains searchable y)
unfolding or_groups or_groups_from groups_match any strip_prefix starts_with
two_alternatives s x y = ground arith

three_alternatives :
    (searchable w x y : Text)
    → strip_prefix or_mark w ≡ none
    → groups_match searchable (or_groups (w ∷ (or_mark ++ x) ∷ (or_mark ++ y) ∷ []))
      ≡ (contains searchable w || contains searchable x || contains searchable y)
unfolding or_groups or_groups_from groups_match any
three_alternatives s w x y u = rw (u, strip_mark x, strip_mark y, or_groups_from) (ground arith)

module _ (to_lowercase : Text → Text) where
  parse_word :
      (ts us : List Text) (t : Text)
      → IsWord t
      → parse_tokens to_lowercase false (t ∷ us) (with_terms to_lowercase ts empty_query)
        ≡ parse_tokens to_lowercase false us
            (with_terms to_lowercase (ts ++ to_lowercase t ∷ []) empty_query)
  unfolding parse_tokens
  parse_word ts us t w =
      rw (parse_token_word to_lowercase t (with_terms to_lowercase ts empty_query) w) refl

  parse_or :
      (x y : Text)
      → parse_tokens to_lowercase false
          (codes "OR" ∷ y ∷ [])
          (with_terms to_lowercase (x ∷ []) empty_query)
        ≡ with_terms to_lowercase ((or_mark ++ x) ∷ (or_mark ++ y) ∷ []) empty_query
  unfolding parse_tokens parse_token mark_last any text_eq
  parse_or x y = refl

  parse_word_or :
      (w x y : Text)
      → parse_tokens to_lowercase false
          (codes "OR" ∷ y ∷ [])
          (with_terms to_lowercase (w ∷ x ∷ []) empty_query)
        ≡ with_terms to_lowercase (w ∷ (or_mark ++ x) ∷ (or_mark ++ y) ∷ []) empty_query
  unfolding parse_tokens parse_token mark_last any text_eq
  parse_word_or w x y = refl

  -- A query of a word, OR and another token matches exactly when the text of the record holds the
  -- word in lower case, or the other token as it was typed.
  pub matches_or :
      (r : ContentRecord) (input x y : Text)
      → tokenize input ≡ x ∷ codes "OR" ∷ y ∷ []
      → IsWord x
      → matches_query to_lowercase r (parse_query to_lowercase input) ≡ (
          contains (build_searchable_text to_lowercase r) (to_lowercase x)
          || contains (build_searchable_text to_lowercase r) y)
  unfolding parse_query
  matches_or r input x y tokens wx = rw tokens (
      ap (matches_query to_lowercase r)
        (parse_word [] (codes "OR" ∷ y ∷ []) x wx ∙ parse_or (to_lowercase x) y)
      ∙ terms_only to_lowercase r ((or_mark ++ to_lowercase x) ∷ (or_mark ++ y) ∷ [])
      ∙ two_alternatives (build_searchable_text to_lowercase r) (to_lowercase x) y)

  -- Of a word, a second word, OR and another token, any one is enough: the first word is not
  -- required, but joins the alternatives.
  pub matches_word_or :
      (r : ContentRecord) (input w x y : Text)
      → tokenize input ≡ w ∷ x ∷ codes "OR" ∷ y ∷ []
      → IsWord w
      → IsWord x
      → strip_prefix or_mark (to_lowercase w) ≡ none
      → matches_query to_lowercase r (parse_query to_lowercase input) ≡ (
          contains (build_searchable_text to_lowercase r) (to_lowercase w)
          || contains (build_searchable_text to_lowercase r) (to_lowercase x)
          || contains (build_searchable_text to_lowercase r) y)
  unfolding parse_query
  matches_word_or r input w x y tokens ww wx u = rw tokens (
      ap (matches_query to_lowercase r) (
        parse_word [] (x ∷ codes "OR" ∷ y ∷ []) w ww
        ∙ parse_word (to_lowercase w ∷ []) (codes "OR" ∷ y ∷ []) x wx
        ∙ parse_word_or (to_lowercase w) (to_lowercase x) y)
      ∙ terms_only to_lowercase r
          (to_lowercase w ∷ (or_mark ++ to_lowercase x) ∷ (or_mark ++ y) ∷ [])
      ∙ three_alternatives (build_searchable_text to_lowercase r) (to_lowercase w) (to_lowercase x)
          y u)
