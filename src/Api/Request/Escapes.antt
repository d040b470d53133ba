-- ===== src/Api/Request/Escapes.antt =====
-- Query strings whose characters are all escaped (src/api/request.rs).
use dsearch.Base.{
  ℕ, ◌/◌, ◌%◌, ◌<◌, ◌≡◌, refl, false, some, List, [], ◌∷◌, ◌++◌, ◌==◌, Text, put, to_hex_digit,
  hex_pair-to_hex, split_once, split_on, is_empty_text, All, arith,
}
use dsearch.Api.Request.{percent_decode, add_pair, add_pairs, parse_query_string}

-- A text with each character, below 256, written as a percent sign (37) and two digits.
unfoldable pub escaped : Text → Text
escaped [] = []
escaped (b ∷ s) = 37 ∷ to_hex_digit (b / 16) ∷ to_hex_digit (b % 16) ∷ escaped s

abbrev pub IsByteText : Text → Type 0
IsByteText s = All (λ b. b < 256) s

pub percent_decode-escaped : (s : Text) → IsByteText s → percent_decode (escaped s) ≡ s
unfolding percent_decode escaped
percent_decode-escaped [] h = refl
percent_decode-escaped (b ∷ s) (small, h) =
    rw (hex_pair-to_hex b small, percent_decode-escaped s h) refl

-- A character that does not stand in a text.
abbrev IsFree : ℕ → Text → Type 0
IsFree sep s = All (λ c. (c == sep) ≡ false) s

split_once_free :
    (sep : ℕ) (s t : Text) → IsFree sep s → split_once sep (s ++ sep ∷ t) ≡ some (s, t)
unfolding split_once
split_once_free sep [] t h = ground arith
split_once_free sep (c ∷ s) t (other, h) = rw (other, split_once_free sep s t h) refl

split_on_free :
    (sep : ℕ) (s t : Text) → IsFree sep s → split_on sep (s ++ sep ∷ t) ≡ s ∷ split_on sep t
unfolding split_on
split_on_free sep [] t h = ground arith
split_on_free sep (c ∷ s) t (other, h) = rw (other, split_on_free sep s t h) refl

split_on_last : (sep : ℕ) (s : Text) → IsFree sep s → split_on sep s ≡ s ∷ []
unfolding split_on
split_on_last sep [] h = refl
split_on_last sep (c ∷ s) (other, h) = rw (other, split_on_last sep s h) refl

escaped_no_equals : (s : Text) → IsByteText s → IsFree 61 (escaped s)
unfolding escaped
escaped_no_equals [] h = tt
escaped_no_equals (b ∷ s) (small, h) = (refl, (ground arith, (ground arith, escaped_no_equals s h)))

escaped_no_ampersand : (s : Text) → IsByteText s → IsFree 38 (escaped s)
unfolding escaped
escaped_no_ampersand [] h = tt
escaped_no_ampersand (b ∷ s) (small, h) =
    (refl, (ground arith, (ground arith, escaped_no_ampersand s h)))

abbrev pub IsBytePair : Text × Text → Type 0
IsBytePair (key, value) = IsByteText key × IsByteText value

abbrev pub print_pair : Text × Text → Text
print_pair (key, value) = escaped key ++ 61 ∷ escaped value

unfoldable pub print_pairs : List (Text × Text) → Text
print_pairs [] = []
print_pairs (p ∷ []) = print_pair p
print_pairs (p ∷ q ∷ ps) = print_pair p ++ 38 ∷ print_pairs (q ∷ ps)

-- The map with these pairs, a later one in place of an earlier one of its key.
unfoldable pub put_pairs : List (Text × Text) → List (Text × Text) → List (Text × Text)
put_pairs [] query = query
put_pairs ((key, value) ∷ ps) query = put_pairs ps (put key value query)

not_empty : (s t : Text) (c : ℕ) → is_empty_text (s ++ c ∷ t) ≡ false
not_empty [] t c = refl
not_empty (d ∷ s) t c = refl

IsFree-append : (sep : ℕ) (s t : Text) → IsFree sep s → IsFree sep t → IsFree sep (s ++ t)
IsFree-append sep [] t h g = g
IsFree-append sep (c ∷ s) t (p, h) g = (p, IsFree-append sep s t h g)

print_pair-IsFree : (p : Text × Text) → IsBytePair p → IsFree 38 (print_pair p)
print_pair-IsFree (key, value) (k, v) =
    IsFree-append 38 (escaped key) (61 ∷ escaped value) (escaped_no_ampersand key k)
      (refl, escaped_no_ampersand value v)

add_pair-print_pair :
    (p : Text × Text) (query : List (Text × Text))
    → IsBytePair p
    → add_pair (print_pair p) query ≡ put p.0 p.1 query
unfolding add_pair
add_pair-print_pair (key, value) query (k, v) =
    rw
      (
        not_empty (escaped key) (escaped value) 61,
        split_once_free 61 (escaped key) (escaped value) (escaped_no_equals key k),
        percent_decode-escaped key k,
        percent_decode-escaped value v,
      )
      refl

add_pairs-print_pairs :
    (p : Text × Text) (ps query : List (Text × Text))
    → All IsBytePair (p ∷ ps)
    → add_pairs (split_on 38 (print_pairs (p ∷ ps))) query ≡ put_pairs (p ∷ ps) query
unfolding print_pairs put_pairs add_pairs
add_pairs-print_pairs p [] query (h, hs) =
    rw (split_on_last 38 (print_pair p) (print_pair-IsFree p h)) (add_pair-print_pair p query h)
add_pairs-print_pairs p (q ∷ ps) query (h, hs) =
    rw
      (
        split_on_free 38 (print_pair p) (print_pairs (q ∷ ps)) (print_pair-IsFree p h),
        add_pairs,
        add_pair-print_pair p query h,
      )
      (add_pairs-print_pairs q ps (put p.0 p.1 query) hs)

print_pairs_start :
    (p : Text × Text) (ps : List (Text × Text)) → is_empty_text (print_pairs (p ∷ ps)) ≡ false
unfolding print_pairs
print_pairs_start (key, value) [] = not_empty (escaped key) (escaped value) 61
print_pairs_start (key, value) (q ∷ ps) =
    not_empty (escaped key ++ 61 ∷ escaped value) (print_pairs (q ∷ ps)) 38

-- A query string of pairs whose characters, all below 256, are each written as an escape is read
-- as those pairs, a later one in place of an earlier one of the same key.
pub parse_query_string-print_pairs :
    (ps : List (Text × Text))
    → All IsBytePair ps
    → parse_query_string (print_pairs ps) ≡ put_pairs ps []
unfolding parse_query_string print_pairs put_pairs
parse_query_string-print_pairs [] h = refl
parse_query_string-print_pairs (p ∷ ps) h =
    rw (print_pairs_start p ps) (add_pairs-print_pairs p ps [] h)
