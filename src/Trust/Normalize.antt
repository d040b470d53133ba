-- ===== src/Trust/Normalize.antt =====
-- Source URLs in the form that is hashed (src/trust/sign.rs). Lower-casing follows the tables of
-- Unicode, and is a parameter, as the digest of Blake3 in hexadecimal.
use dsearch.Base.{
  ℕ, Bool, true, false, not, ◌&&◌, ◌||◌, Option, none, some, List, [], ◌∷◌, ◌++◌, ◌==◌, ltb,
  if◌then◌else◌, Text, codes, text_eq, any, retain, map, as_bytes, split_once, split_on,
  starts_with, drop, is_empty_text, join,
}
use dsearch.Api.Request.{trim}

abbrev pub tracking_params : List Text
tracking_params =
    codes "utm_source"
    ∷ codes "utm_medium"
    ∷ codes "utm_campaign"
    ∷ codes "utm_term"
    ∷ codes "utm_content"
    ∷ codes "utm_id"
    ∷ codes "fbclid"
    ∷ codes "gclid"
    ∷ codes "gclsrc"
    ∷ codes "dclid"
    ∷ codes "msclkid"
    ∷ codes "mc_eid"
    ∷ codes "_ga"
    ∷ codes "_gl"
    ∷ codes "_hsenc"
    ∷ codes "_hsmi"
    ∷ codes "hsCtaTracking"
    ∷ codes "ver"
    ∷ codes "ref"
    ∷ codes "referrer"
    ∷ codes "source"
    ∷ codes "s_cid"
    ∷ codes "elqTrackId"
    ∷ codes "elqTrack"
    ∷ codes "assetType"
    ∷ codes "assetId"
    ∷ codes "recipient_id"
    ∷ codes "campaign_id"
    ∷ codes "site_id"
    ∷ []

-- The text before a first character like this one, and what it starts.
unfoldable pub break_at : ℕ → Text → Text × Text
break_at sep [] = ([], [])
break_at sep (c ∷ s) =
    let (front, back) = break_at sep s in if c == sep then ([], c ∷ s) else (c ∷ front, back)

abbrev before_scheme : ℕ → Option (Text × Text) → Option (Text × Text)
before_scheme c none = none
before_scheme c (some (scheme, rest)) = some (c ∷ scheme, rest)

-- The text up to the end of the first "://", and what follows it.
unfoldable pub split_scheme : Text → Option (Text × Text)
split_scheme [] = none
split_scheme (c ∷ s) =
    let later = split_scheme s in
    if starts_with (codes "://") (c ∷ s)
    then some (codes "://", drop 3 (c ∷ s))
    else before_scheme c later

-- A path that is longer than one byte loses the slash (47) at its end.
unfoldable pub strip_slash : Text → Text
strip_slash [] = []
strip_slash (c ∷ []) = c ∷ []
strip_slash (c ∷ d ∷ []) = if d == 47 then c ∷ [] else c ∷ d ∷ []
strip_slash (c ∷ d ∷ e ∷ s) = c ∷ strip_slash (d ∷ e ∷ s)

-- A pair of a query, at its equals sign (61).
abbrev pub pair_of : Text → Text × Text
pair_of pair = elim (split_once 61 pair) [ none ↦ (pair, []) | some parts ↦ parts ]

-- The order of strings, by their scalar values, as that of their bytes.
unfoldable pub text_less : Text → Text → Bool
text_less s [] = false
text_less [] (d ∷ t) = true
text_less (c ∷ s) (d ∷ t) = ltb c d || (c == d) && text_less s t

-- `sort_by_key`, which is stable, as an insertion sort.
unfoldable pub insert_param : Text × Text → List (Text × Text) → List (Text × Text)
insert_param p [] = p ∷ []
insert_param p (q ∷ l) =
    let rest = insert_param p l in if text_less q.0 p.0 then q ∷ rest else p ∷ q ∷ l

unfoldable pub sort_params : List (Text × Text) → List (Text × Text)
sort_params [] = []
sort_params (p ∷ l) = insert_param p (sort_params l)

abbrev pub print_param : Text × Text → Text
print_param (key, value) = if is_empty_text value then key else key ++ (codes "=" ++ value)

abbrev pub print_params : List (Text × Text) → Text
print_params [] = []
print_params (p ∷ l) = codes "?" ++ join (codes "&") (map print_param (p ∷ l))

module _ (to_lowercase : Text → Text) where
  unfoldable pub is_tracking : Text → Bool
  is_tracking key = any (λ name. text_eq name (to_lowercase key)) tracking_params

  -- The pairs between ampersands (38), without those that track.
  unfoldable pub parse_params : Text → List (Text × Text)
  parse_params query_string =
      retain (λ p. not (is_tracking p.0))
        (map pair_of (retain (λ pair. not (is_empty_text pair)) (split_on 38 query_string)))

  abbrev pub path_or_root : Text → Text
  path_or_root [] = codes "/"
  path_or_root (c ∷ s) = c ∷ s

  -- What follows the scheme. The path starts at the first slash (47), the query behind the first
  -- question mark (63) after it.
  unfoldable pub normalize_rest : Text → Text
  normalize_rest rest =
      let (host, path_and_query) = break_at 47 rest in
      let (path, query) = break_at 63 (path_or_root path_and_query) in
      to_lowercase host
      ++ (strip_slash path ++ print_params (sort_params (parse_params (drop 1 query))))

  -- The fragment, from the number sign (35) on, is dropped; a text without a scheme is returned
  -- as it is.
  unfoldable pub normalize_source_url : Text → Text
  normalize_source_url url =
      let (front, fragment) = break_at 35 (trim url) in
      elim (split_scheme front) [
        | none ↦ front
        | some (scheme, rest) ↦ to_lowercase scheme ++ normalize_rest rest
      ]

  unfoldable pub compute_source_hash : (List ℕ → Text) → Text → Text
  compute_source_hash blake3_hex source_url =
      blake3_hex (as_bytes (normalize_source_url source_url))
