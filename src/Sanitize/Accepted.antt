-- ===== src/Sanitize/Accepted.antt =====
-- Which records sanitizing accepts, and as what (src/sanitize.rs).
use dsearch.Base.{
  ◌≤◌, ◌≡◌, ◌↔◌, ◌⊎◌, inl, inr, refl, ap, sym, ◌∙◌, Option, none, some, List, [], ◌∷◌, ltb, ok, err,
  Text, byte_len, All, arith, Bool-cases, Option-cases, map,
}
use mathlib.Core.Path.{ap₂}
use dsearch.Model.{ContentRecord}
use dsearch.Sanitize.{
  SanitizeError, body_exceeds, key_exceeds, value_exceeds, sanitize_chars, sanitize_string,
  max_body_size, max_key_size, max_value_size, validate_body_size, validate_key_size,
  validate_value_size, split_colon, validate_tag, sanitize_tags, sanitize_record,
}
use dsearch.Sanitize.Clean.{sanitize_chars-IsClean, sanitize_chars_clean}

-- The sizes of the two parts of a tag, where it has them.
abbrev pub Fits : Option (Text × Text) → Type 0
Fits none = Unit
Fits (some (key, value)) = (byte_len key ≤ max_key_size) × (byte_len value ≤ max_value_size)

-- The record with its texts sanitized.
unfoldable pub cleaned : ContentRecord → ContentRecord
cleaned r = record r {
  id = sanitize_chars r.id;
  source_url = sanitize_chars r.source_url;
  source_hash = sanitize_chars r.source_hash;
  schema = sanitize_chars r.schema;
  tags = map sanitize_chars r.tags;
  body = sanitize_chars r.body;
}

-- The limits on sizes.
pub record IsSmall (r : ContentRecord) : Type 0 where
  pub body_fits : byte_len r.body ≤ max_body_size
  pub tags_fit : All (λ t. Fits (split_colon t)) r.tags

validate_tag-cases :
    (t : Text)
    → ((validate_tag t ≡ ok tt) × Fits (split_colon t))
      ⊎ (e : SanitizeError) × (validate_tag t ≡ err e) × (Fits (split_colon t) → ⊥)
unfolding validate_tag validate_key_size validate_value_size
validate_tag-cases t = elim (Option-cases (split_colon t)) [
  | inl plain ↦ inl (rw (plain, validate_tag) (refl, tt))
  | inr ((key, value), found) ↦ elim (Bool-cases (ltb max_key_size (byte_len key))) [
    | inl h ↦ inr (
      key_exceeds (byte_len key),
      rw (found, validate_tag, h) refl,
      rw found (λ f. absurd (ground arith)),
    )
    | inr h ↦ elim (Bool-cases (ltb max_value_size (byte_len value))) [
      | inl g ↦ inr (
        value_exceeds (byte_len value),
        rw (found, validate_tag, h, g) refl,
        rw found (λ f. absurd (ground arith)),
      )
      | inr g ↦ inl (rw (found, validate_tag, h, g) refl, rw found (ground arith))
    ]
  ]
]

sanitize_tags-cases :
    (tags : List Text)
    → ((sanitize_tags tags ≡ ok (map sanitize_chars tags))
        × All (λ t. Fits (split_colon t)) (map sanitize_chars tags))
      ⊎ (e : SanitizeError) × (sanitize_tags tags ≡ err e)
        × (All (λ t. Fits (split_colon t)) (map sanitize_chars tags) → ⊥)
unfolding sanitize_tags sanitize_string
sanitize_tags-cases [] = inl (refl, tt)
sanitize_tags-cases (t ∷ tags) = elim (validate_tag-cases (sanitize_chars t)) [
  | inr (e, failed, unfit) ↦ inr (e, rw (failed, sanitize_tags) refl, λ (f, fs). unfit f)
  | inl (passed, fits) ↦ elim (sanitize_tags-cases tags) [
    | inr (e, failed, unfit) ↦ inr (e, rw (passed, failed, sanitize_tags) refl, λ (f, fs). unfit fs)
    | inl (rest, small) ↦ inl (rw (passed, rest, sanitize_tags) refl, (fits, small))
  ]
]

sanitize_record-cases :
    (r : ContentRecord)
    → ((sanitize_record r ≡ ok (cleaned r)) × IsSmall (cleaned r))
      ⊎ (e : SanitizeError) × (sanitize_record r ≡ err e) × (IsSmall (cleaned r) → ⊥)
unfolding sanitize_record sanitize_string validate_body_size cleaned
sanitize_record-cases r = elim (Bool-cases (ltb max_body_size (byte_len (sanitize_chars r.body)))) [
  | inl h ↦ inr (
    body_exceeds (byte_len (sanitize_chars r.body)),
    rw (h, sanitize_record) refl,
    λ s. let b = s.body_fits in absurd (ground arith),
  )
  | inr h ↦ elim (sanitize_tags-cases r.tags) [
    | inl (passed, fit) ↦
        inl (
          rw (h, passed, sanitize_record) refl,
          record { body_fits = ground arith; tags_fit = fit },
        )
    | inr (e, failed, unfit) ↦ inr (e, rw (h, failed, sanitize_record) refl, λ s. unfit s.tags_fit)
  ]
]

-- Sanitizing a record succeeds exactly when, after its texts lose the characters that are not
-- allowed, its body is at most 1 MB and each tag with a colon has a key of at most 256 bytes and a
-- value of at most 64 KB; and the result is the record with those texts.
pub sanitize_record_iff :
    (r r' : ContentRecord) → (sanitize_record r ≡ ok r') ↔ ((r' ≡ cleaned r) × IsSmall (cleaned r))
sanitize_record_iff r r' = elim (sanitize_record-cases r) [
  | inl (passed, small) ↦ (λ h. (cc, small), λ (same, s). passed ∙ ap ok (sym same))
  | inr (e, failed, unfit) ↦ (λ h. absurd (cc), λ (same, s). absurd (unfit s))
]

map-sanitize_chars :
    (tags : List Text) → map sanitize_chars (map sanitize_chars tags) ≡ map sanitize_chars tags
map-sanitize_chars [] = refl
map-sanitize_chars (t ∷ tags) =
    ap₂ ◌∷◌ (sanitize_chars_clean (sanitize_chars t) (sanitize_chars-IsClean t))
      (map-sanitize_chars tags)

chars_idempotent : (s : Text) → sanitize_chars (sanitize_chars s) ≡ sanitize_chars s
chars_idempotent s = sanitize_chars_clean (sanitize_chars s) (sanitize_chars-IsClean s)

cleaned_idempotent : (r : ContentRecord) → cleaned (cleaned r) ≡ cleaned r
unfolding cleaned
cleaned_idempotent r =
    rw
      (
        chars_idempotent r.id,
        chars_idempotent r.source_url,
        chars_idempotent r.source_hash,
        chars_idempotent r.schema,
        map-sanitize_chars r.tags,
        chars_idempotent r.body,
      )
      refl

-- A sanitized record is accepted as it is.
pub sanitize_record_idempotent :
    (r r' : ContentRecord) → sanitize_record r ≡ ok r' → sanitize_record r' ≡ ok r'
sanitize_record_idempotent r r' h =
    let (same, small) = (sanitize_record_iff r r').0 h in
    let again = ap cleaned same ∙ cleaned_idempotent r ∙ sym same in
    (sanitize_record_iff r' r').1 (sym again, rw (again, same) small)
