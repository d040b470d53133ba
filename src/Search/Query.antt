-- ===== src/Search/Query.antt =====
-- The parser of search queries (src/search/query.rs). Lower-casing follows the tables of Unicode,
-- and is a parameter.
pub mod Plain
use dsearch.Base.{
  ℕ, Bool, true, false, not, ◌&&◌, Option, none, some, List, [], ◌∷◌, ◌++◌, ◌==◌, if◌then◌else◌,
  Text, text_eq, codes, any, put, u64_mod, ◌-◌,
}
use dsearch.Sanitize.{split_colon}
use dsearch.Search.Tokens.{quote, tokenize}
use dsearch.Search.Dates.{parse_number, parse_date_value}

pub record ParsedQuery : Type 0 where
  pub terms : List Text
  pub phrases : List Text
  pub excludes : List Text
  pub fields : List (Text × Text)
  pub limit : Option ℕ
  pub since : Option ℕ
  pub before : Option ℕ

abbrev pub empty_query : ParsedQuery
empty_query = record {
  terms = [];
  phrases = [];
  excludes = [];
  fields = [];
  limit = none;
  since = none;
  before = none;
}

abbrev pub field_names : List Text
field_names =
    codes "title"
    ∷ codes "tag"
    ∷ codes "schema"
    ∷ codes "source"
    ∷ codes "scraped"
    ∷ codes "refresh"
    ∷ codes "limit"
    ∷ codes "since"
    ∷ codes "before"
    ∷ []

unfoldable pub field_of_parts : Option (Text × Text) → Option (Text × Text)
field_of_parts none = none
field_of_parts (some (field, value)) =
    if any (λ name. text_eq name field) field_names then some (field, value) else none

-- The field before the first colon and the value after it, if it is one of the fields.
unfoldable pub parse_field_filter : Text → Option (Text × Text)
parse_field_filter token = field_of_parts (split_colon token)

abbrev pub prefix_char : ℕ → Option Text → Option Text
prefix_char c none = none
prefix_char c (some s) = some (c ∷ s)

-- The text before a quote at the end.
unfoldable pub strip_last : Text → Option Text
strip_last [] = none
strip_last (c ∷ []) = if c == quote then some [] else none
strip_last (c ∷ d ∷ s) = prefix_char c (strip_last (d ∷ s))

-- The text between the quotes of a token that starts and ends with one, and is longer than one.
unfoldable pub unquote : Text → Option Text
unfolding strip_last
unquote [] = none
unquote (q ∷ s) = if q == quote then strip_last s else none

-- The term after a minus sign (45), if the token is longer than that.
unfoldable pub excluded : Text → Option Text
excluded [] = none
excluded (q ∷ []) = none
excluded (q ∷ c ∷ s) = if q == 45 then some (c ∷ s) else none

abbrev pub or_mark : Text
or_mark = codes "OR:"

unfoldable pub mark_last : List Text → List Text
mark_last [] = []
mark_last (t ∷ []) = (or_mark ++ t) ∷ []
mark_last (t ∷ u ∷ ts) = t ∷ mark_last (u ∷ ts)

abbrev pub or_before : Option ℕ → Option ℕ → Option ℕ
or_before none n = n
or_before (some m) n = some m

module _ (to_lowercase : Text → Text) where
  -- A filter: a limit that does not parse is passed over, a date that does not parse resets its
  -- field.
  unfoldable pub add_field : Text → Text → ParsedQuery → ParsedQuery
  add_field field value query =
      if text_eq field (codes "limit")
      then record query { limit = or_before (parse_number (u64_mod - 1) value) query.limit }
      else if text_eq field (codes "since")
      then record query { since = parse_date_value value }
      else if text_eq field (codes "before")
      then record query { before = parse_date_value value }
      else record query { fields = put field (to_lowercase value) query.fields }

  -- A token that is no OR: an excluded term, a phrase, a field filter or a term.
  unfoldable pub add_token : Text → ParsedQuery → ParsedQuery
  add_token token query = elim (excluded token) [
    | some term ↦ record query { excludes = query.excludes ++ to_lowercase term ∷ [] }
    | none ↦ elim (unquote token) [
      | some phrase ↦ record query { phrases = query.phrases ++ to_lowercase phrase ∷ [] }
      | none ↦ elim (parse_field_filter token) [
        | some (field, value) ↦ add_field field value query
        | none ↦ record query { terms = query.terms ++ to_lowercase token ∷ [] }
      ]
    ]
  ]

  abbrev pub is_or : Text → ParsedQuery → Bool
  is_or token query = text_eq token (codes "OR") && any (λ t. true) query.terms

  -- One round of the loop of `parse_query`. The flag says that the token before was an OR, which
  -- takes this token as it is.
  unfoldable pub parse_token : Bool → Text → ParsedQuery → Bool × ParsedQuery
  parse_token true token query =
      (false, record query { terms = query.terms ++ (or_mark ++ token) ∷ [] })
  parse_token false token query =
      if is_or token query
      then (true, record query { terms = mark_last query.terms })
      else (false, add_token token query)

  unfoldable pub parse_tokens : Bool → List Text → ParsedQuery → ParsedQuery
  parse_tokens after_or [] query = query
  parse_tokens after_or (token ∷ tokens) query =
      let (after_or', query') = parse_token after_or token query in
      parse_tokens after_or' tokens query'

  unfoldable pub parse_query : Text → ParsedQuery
  parse_query input = parse_tokens false (tokenize input) empty_query
