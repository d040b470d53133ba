-- ===== src/Sanitize.antt =====
-- Sanitizing of records before they are stored (src/sanitize.rs).
pub mod Clean
pub mod Accepted
use dsearch.Base.{
  ℕ, Bool, true, false, not, ◌&&◌, ◌||◌, Option, none, some, List, [], ◌∷◌, ltb, leb, ◌==◌,
  if◌then◌else◌, Result, ok, err, ◌>>=◌, Text, byte_len,
}
use dsearch.Model.{ContentRecord}

abbrev pub max_body_size : ℕ
max_body_size = 1048576

abbrev pub max_key_size : ℕ
max_key_size = 256

abbrev pub max_value_size : ℕ
max_value_size = 65536

-- `char::is_control`: the category Cc.
unfoldable pub is_control : ℕ → Bool
is_control ch = leb ch 31 || leb 127 ch && leb ch 159

abbrev pub between : ℕ → ℕ → ℕ → Bool
between first last ch = leb first ch && leb ch last

unfoldable pub is_format_char : ℕ → Bool
is_format_char ch =
    ch == 0x00ad
    || between 0x0600 0x0605 ch
    || ch == 0x061c
    || ch == 0x06dd
    || ch == 0x070f
    || between 0x0890 0x0891 ch
    || ch == 0x08e2
    || ch == 0x180e
    || between 0x200b 0x200f ch
    || between 0x2028 0x202e ch
    || between 0x2060 0x2064 ch
    || between 0x2066 0x206f ch
    || ch == 0xfeff
    || between 0xfff9 0xfffb ch
    || between 0x13430 0x1343f ch

-- The loop of `sanitize_string` over the characters; 10 is the newline.
unfoldable pub sanitize_chars : Text → Text
sanitize_chars [] = []
sanitize_chars (ch ∷ s) =
    let rest = sanitize_chars s in
    if ch == 10
    then ch ∷ rest
    else if is_control ch
    then rest
    else if is_format_char ch
    then rest
    else ch ∷ rest

-- The rejection reasons, each with the size that the message names.
pub data SanitizeError : Type 0 where
  body_exceeds : ℕ → SanitizeError
  key_exceeds : ℕ → SanitizeError
  value_exceeds : ℕ → SanitizeError

-- It never fails.
unfoldable pub sanitize_string : Text → Result Text SanitizeError
sanitize_string input = ok (sanitize_chars input)

unfoldable pub validate_body_size : Text → Result (Unit {0}) SanitizeError
validate_body_size body =
    if ltb max_body_size (byte_len body) then err (body_exceeds (byte_len body)) else ok tt

unfoldable pub validate_key_size : Text → Result (Unit {0}) SanitizeError
validate_key_size key =
    if ltb max_key_size (byte_len key) then err (key_exceeds (byte_len key)) else ok tt

unfoldable pub validate_value_size : Text → Result (Unit {0}) SanitizeError
validate_value_size value =
    if ltb max_value_size (byte_len value) then err (value_exceeds (byte_len value)) else ok tt

-- `split_once(':')`
unfoldable pub split_colon : Text → Option (Text × Text)
split_colon [] = none
split_colon (ch ∷ s) =
    let rest : Option (Text × Text) = elim (split_colon s) [
      | none ↦ none
      | some (key, value) ↦ some (ch ∷ key, value)
    ] in
    if ch == 58 then some ([], s) else rest

-- The check of a sanitized tag: only a tag with a colon has a key and a value.
unfoldable pub validate_tag : Text → Result (Unit {0}) SanitizeError
validate_tag tag = elim (split_colon tag) [
  | none ↦ ok tt
  | some (key, value) ↦ do _ ← validate_key_size key; validate_value_size value
]

unfoldable pub sanitize_tags : List Text → Result (List Text) SanitizeError
sanitize_tags [] = ok []
sanitize_tags (tag ∷ tags) = do
  sanitized_tag ← sanitize_string tag
  _ ← validate_tag sanitized_tag
  rest ← sanitize_tags tags
  ok (sanitized_tag ∷ rest)

unfoldable pub sanitize_record : ContentRecord → Result ContentRecord SanitizeError
sanitize_record r = do
  body ← sanitize_string r.body
  _ ← validate_body_size body
  source_url ← sanitize_string r.source_url
  schema ← sanitize_string r.schema
  tags ← sanitize_tags r.tags
  id ← sanitize_string r.id
  source_hash ← sanitize_string r.source_hash
  ok (record r {
    id = id;
    source_url = source_url;
    source_hash = source_hash;
    schema = schema;
    tags = tags;
    body = body;
  })
