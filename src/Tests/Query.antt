-- ===== src/Tests/Query.antt =====
-- Runs of the query language, and the theorems at them.
use dsearch.Base.{
  ◌-◌, ◌*◌, ◌≡◌, refl, none, some, [], ◌∷◌, if◌then◌else◌, All, Text, codes, map, text_eq, contains,
  starts_with, ltb, arith,
}
use dsearch.Sanitize.{split_colon}
use dsearch.Search.Tokens.{tokenize, tokenize_from}
use dsearch.Search.Dates.{
  date_seconds, days_from_civil, parse_date_value, parse_number, split_dash, parse_date_parts,
  date_of_parts,
}
use dsearch.Search.Dates.Calendar.{ordinal}
use dsearch.Search.Dates.Exact.{date_seconds-ordinal}
use dsearch.Search.Query.{
  parse_query, or_mark, excluded, unquote, parse_field_filter, field_of_parts,
}
use dsearch.Search.Query.Plain.{IsWord}
use dsearch.Search.Matching.{every, strip_prefix, build_searchable_text, matches_query}
use dsearch.Search.Matching.Groups.{matches_words}
use dsearch.Tests.Store.{first}

split_and_read : Unit {0}
unfolding tokenize tokenize_from excluded unquote parse_field_filter field_of_parts split_colon
    text_eq
split_and_read = tt

-- Lower case of texts that are in lower case.
abbrev same : Text → Text
same t = t

quoted : tokenize (codes "a \"b c\"") ≡ codes "a" ∷ codes "\"b c\"" ∷ []
unfolding split_and_read
quoted = refl

new_year : parse_date_value (codes "2024-01-01") ≡ some 1704067200
unfolding parse_date_value parse_number split_dash parse_date_parts date_of_parts date_seconds
    days_from_civil
new_year = refl

date_seconds-ordinal_example :
    date_seconds 2024 2 29
    ≡ (if ltb (ordinal 2024 2 29) 719163 then none else some ((ordinal 2024 2 29 - 719163) * 86400))
date_seconds-ordinal_example =
    date_seconds-ordinal 2024 2 29 (omega arith) (omega arith) (omega arith) (omega arith)
      (omega arith)

two_words : tokenize (codes "rust fast") ≡ codes "rust" ∷ codes "fast" ∷ []
unfolding split_and_read
two_words = refl

rust_IsWord : IsWord (codes "rust")
unfolding split_and_read
rust_IsWord = record { not_excluded = refl; not_quoted = refl; not_filter = refl; not_or = refl }

fast_IsWord : IsWord (codes "fast")
unfolding split_and_read
fast_IsWord = record { not_excluded = refl; not_quoted = refl; not_filter = refl; not_or = refl }

words : All IsWord (tokenize (codes "rust fast"))
words = rw two_words (rust_IsWord, (fast_IsWord, tt))

no_mark : strip_prefix or_mark (codes "rust") ≡ none
unfolding strip_prefix starts_with
no_mark = refl

no_marks : All (λ t. strip_prefix or_mark t ≡ none) (map same (tokenize (codes "rust fast")))
unfolding strip_prefix starts_with
no_marks = rw two_words (refl, (refl, tt))

matches_words_example :
    matches_query same first (parse_query same (codes "rust fast"))
    ≡ every (contains (build_searchable_text same first)) (map same (tokenize (codes "rust fast")))
matches_words_example = matches_words same first (codes "rust fast") words no_marks

four_tokens :
    tokenize (codes "rust fast OR Async")
    ≡ codes "rust" ∷ codes "fast" ∷ codes "OR" ∷ codes "Async" ∷ []
unfolding split_and_read
four_tokens = refl
