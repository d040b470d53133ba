-- ===== src/Scraper/Transforms.antt =====
-- The transforms of scraped content (src/scraper/sandbox.rs). Lower and upper case follow the tables
-- of Unicode, and the extraction from JSON rests on `serde_json`: they are parameters.
pub mod Whitespace
use dsearch.Base.{
  ℕ, zero, suc, ◌-◌, Bool, true, false, not, List, [], ◌∷◌, ◌++◌, ◌==◌, if◌then◌else◌, Result, ok,
  err, Text, codes, text_eq, starts_with, length, take, join, lines, retain,
}
use dsearch.Api.Request.{trim}
use dsearch.Search.Tokens.{is_whitespace}

pub data TransformError : Type 0 where
  unknown_transform : Text → TransformError
  json_failed : TransformError

-- The characters outside of tags, which stand between 60 and 62.
unfoldable pub outside_tags : Bool → Text → Text
outside_tags in_tag [] = []
outside_tags in_tag (c ∷ s) =
    let within = outside_tags true s in
    let after = outside_tags false s in
    if c == 60 then within else if c == 62 then after else if in_tag then within else c ∷ after

-- `replace`: the characters of an occurrence are passed over, from its second on.
unfoldable pub replace_from : ℕ → Text → Text → Text → Text
replace_from skip pat to [] = []
replace_from (suc skip) pat to (c ∷ s) = replace_from skip pat to s
replace_from zero pat to (c ∷ s) =
    let after = replace_from (length pat - 1) pat to s in
    let next = replace_from zero pat to s in
    if starts_with pat (c ∷ s) then to ++ after else c ∷ next

abbrev pub replace : Text → Text → Text → Text
replace pat to s = replace_from zero pat to s

-- The typographic quotes are 0x201c and 0x201d.
unfoldable pub strip_html_tags : Text → Text
strip_html_tags input = replace (codes "&amp;") (codes "&") (
    replace (codes "&#39;") (codes "'") (
      replace (0x201d ∷ []) (34 ∷ []) (
        replace (0x201c ∷ []) (34 ∷ []) (
          replace (codes "&gt;") (codes ">") (
            replace (codes "&lt;") (codes "<")
              (replace (codes "&nbsp;") (codes " ") (outside_tags false input)))))))

-- The loop of `normalize_whitespace`; the flag says that the character before was white space.
unfoldable pub normalize_from : Bool → Text → Text
normalize_from last_was_space [] = []
normalize_from last_was_space (c ∷ s) =
    let spaced = normalize_from true s in
    let next = normalize_from false s in
    if is_whitespace c then (if last_was_space then spaced else 32 ∷ spaced) else c ∷ next

unfoldable pub normalize_whitespace : Text → Text
normalize_whitespace input = trim (normalize_from false input)

unfoldable pub strip_whitespace : Text → Text
strip_whitespace input = retain (λ c. not (is_whitespace c)) input

abbrev pub first_or_empty : List Text → Text
first_or_empty [] = []
first_or_empty (l ∷ ls) = l

module _ (to_lowercase to_uppercase : Text → Text)
    (json_extract : Text → Result Text TransformError) where
  unfoldable pub apply_transform : Text → Text → Result Text TransformError
  apply_transform name input =
      if text_eq name (codes "strip_html")
      then ok (strip_html_tags input)
      else if text_eq name (codes "trim")
      then ok (trim input)
      else if text_eq name (codes "lowercase")
      then ok (to_lowercase input)
      else if text_eq name (codes "uppercase")
      then ok (to_uppercase input)
      else if text_eq name (codes "strip_whitespace")
      then ok (strip_whitespace input)
      else if text_eq name (codes "normalize_whitespace")
      then ok (normalize_whitespace input)
      else if text_eq name (codes "json_extract")
      then json_extract input
      else if text_eq name (codes "first_line")
      then ok (first_or_empty (lines input))
      else if text_eq name (codes "take_lines")
      then ok (join (codes "\n") (take 10 (lines input)))
      else err (unknown_transform name)
