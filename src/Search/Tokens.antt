-- ===== src/Search/Tokens.antt =====
-- The tokenizer of search queries (src/search/query.rs).
pub mod Kept
use dsearch.Base.{
  ℕ, Bool, true, false, not, ◌&&◌, ◌||◌, List, [], ◌∷◌, ◌++◌, leb, ◌==◌, if◌then◌else◌, Text,
}

-- `char::is_whitespace`
unfoldable pub is_whitespace : ℕ → Bool
is_whitespace ch =
    leb 9 ch && leb ch 13
    || ch == 32
    || ch == 0x85
    || ch == 0xa0
    || ch == 0x1680
    || leb 0x2000 ch && leb ch 0x200a
    || ch == 0x2028
    || ch == 0x2029
    || ch == 0x202f
    || ch == 0x205f
    || ch == 0x3000

abbrev pub quote : ℕ
quote = 34

-- A token is pushed unless it is empty.
abbrev pub flush : Text → List Text
flush [] = []
flush (c ∷ s) = (c ∷ s) ∷ []

-- One round of the loop: the tokens pushed, the current token, and whether it is in quotes.
unfoldable pub token_step : Text → Bool → ℕ → List Text × Text × Bool
token_step current in_quotes ch =
    if ch == quote
    then (if in_quotes then ([], current ++ ch ∷ [], false) else (flush current, ch ∷ [], true))
    else if is_whitespace ch && not in_quotes
    then (flush current, [], in_quotes)
    else ([], current ++ ch ∷ [], in_quotes)

unfoldable pub tokenize_from : Text → Bool → Text → List Text
unfolding token_step is_whitespace
tokenize_from current in_quotes [] = flush current
tokenize_from current in_quotes (ch ∷ s) =
    let (out, current', in_quotes') = token_step current in_quotes ch in
    out ++ tokenize_from current' in_quotes' s

unfoldable pub tokenize : Text → List Text
unfolding tokenize_from
tokenize input = tokenize_from [] false input
