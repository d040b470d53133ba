-- ===== src/Search/Query/Plain.antt =====
-- Queries of plain words (src/search/query.rs).
use mathlib.Core.List.{append_assoc, append-nil}
use dsearch.Base.{
  ◌≡◌, refl, sym, ◌∙◌, ap, false, none, List, [], ◌∷◌, ◌++◌, Text, text_eq, codes, All, map,
}
use dsearch.Search.Query.{
  ParsedQuery, excluded, unquote, parse_field_filter, add_token, parse_token, parse_tokens,
}

-- A token that is no operator: no minus sign in front, no quotes round it, no field filter, no OR.
pub record IsWord (t : Text) : Type 0 where
  pub not_excluded : excluded t ≡ none
  pub not_quoted : unquote t ≡ none
  pub not_filter : parse_field_filter t ≡ none
  pub not_or : text_eq t (codes "OR") ≡ false

module _ (to_lowercase : Text → Text) where
  abbrev pub with_terms : List Text → ParsedQuery → ParsedQuery
  with_terms ts q = record q { terms = q.terms ++ ts }

  add_token_word :
      (t : Text) (q : ParsedQuery)
      → IsWord t
      → add_token to_lowercase t q ≡ with_terms (to_lowercase t ∷ []) q
  unfolding add_token
  add_token_word t q w = rw (w.not_excluded, w.not_quoted, w.not_filter, add_token) refl

  pub parse_token_word :
      (t : Text) (q : ParsedQuery)
      → IsWord t
      → parse_token to_lowercase false t q ≡ (false, with_terms (to_lowercase t ∷ []) q)
  unfolding parse_token
  parse_token_word t q w = rw (w.not_or, add_token_word t q w) refl

  -- Words become terms, in their order and in lower case.
  pub parse_tokens_words :
      (ts : List Text) (q : ParsedQuery)
      → All IsWord ts
      → parse_tokens to_lowercase false ts q ≡ with_terms (map to_lowercase ts) q
  unfolding parse_tokens
  parse_tokens_words [] q ws = ap (λ ts. record q { terms = ts }) (sym (append-nil q.terms))
  parse_tokens_words (t ∷ ts) q (w, ws) = rw (parse_token_word t q w) (
      parse_tokens_words ts (with_terms (to_lowercase t ∷ []) q) ws
      ∙ ap (λ l. record q { terms = l })
          (append_assoc q.terms (to_lowercase t ∷ []) (map to_lowercase ts)))
