-- ===== src/Trust/Sign/Encoding.antt =====
-- How the canonical encoding is read, and what a signature covers (src/trust/sign.rs).
use dsearch.Base.{
  ℕ, ◌%◌, ◌<◌, ◌≡◌, refl, sym, ap, ◌∙◌, List, [], ◌∷◌, ◌++◌, length, All, take, drop, take-append,
  drop-append, be_bytes, from_be_bytes, u32_mod, arith,
}
use mathlib.Core.List.{append_assoc, append-nil}
use mathlib.Core.Path.{ap₂}
use dsearch.Trust.Sign.{
  canonical_encode_fields, RecordFields, record_field_list, encode_record, AnnouncementFields,
  announcement_field_list, encode_announcement,
}

-- The length of a field fits its prefix.
abbrev pub Fits : List (List ℕ) → Type 0
Fits = All (λ f. length f < u32_mod)

-- The length prefix at the front of some bytes.
abbrev read_size : List ℕ → ℕ
read_size (a ∷ b ∷ c ∷ d ∷ _) = from_be_bytes a b c d
read_size _ = 0

-- A field behind its length is read back from any two texts that start alike.
field_inj :
    (x y r s : List ℕ)
    → length x < u32_mod
    → length y < u32_mod
    → be_bytes (length x % u32_mod) ++ (x ++ r) ≡ be_bytes (length y % u32_mod) ++ (y ++ s)
    → (x ≡ y) × (r ≡ s)
field_inj x y r s hx hy e =
    let same : length x ≡ length y = omega (arith, ap read_size e) in
    let tails : x ++ r ≡ y ++ s = ap (drop 4) e in
    (
      sym (take-append x r) ∙ ap (take (length x)) tails ∙ rw same (take-append y s),
      sym (drop-append x r) ∙ ap (drop (length x)) tails ∙ rw same (drop-append y s),
    )

-- Two lists of as many fields, whose encodings start two equal texts, are the same fields, and
-- what follows the encodings is the same too. Each field is shorter than 2 ^ 32 bytes.
pub canonical_encode_fields-injective :
    (xs ys : List (List ℕ)) (r s : List ℕ)
    → length xs ≡ length ys
    → Fits xs
    → Fits ys
    → canonical_encode_fields xs ++ r ≡ canonical_encode_fields ys ++ s
    → (xs ≡ ys) × (r ≡ s)
unfolding canonical_encode_fields
canonical_encode_fields-injective [] [] r s n hx hy e = (refl, e)
canonical_encode_fields-injective [] (y ∷ ys) r s n hx hy e = absurd (omega arith)
canonical_encode_fields-injective (x ∷ xs) [] r s n hx hy e = absurd (omega arith)
canonical_encode_fields-injective (x ∷ xs) (y ∷ ys) r s n (hx, fx) (hy, fy) e =
    let regroup =
      ap (◌++◌ (be_bytes (length x % u32_mod)))
        (sym (append_assoc x (canonical_encode_fields xs) r))
      ∙ e
      ∙ ap (◌++◌ (be_bytes (length y % u32_mod))) (append_assoc y (canonical_encode_fields ys) s) in
    let (same, rest) =
      field_inj x y (canonical_encode_fields xs ++ r) (canonical_encode_fields ys ++ s) hx hy
        regroup in
    let (fields, tails) = canonical_encode_fields-injective xs ys r s (omega arith) fx fy rest in
    (ap₂ ◌∷◌ same fields, tails)

pub encode_injective :
    (xs ys : List (List ℕ))
    → length xs ≡ length ys
    → Fits xs
    → Fits ys
    → canonical_encode_fields xs ≡ canonical_encode_fields ys
    → xs ≡ ys
encode_injective xs ys n hx hy e =
    (canonical_encode_fields-injective xs ys [] [] n hx hy (
      append-nil (canonical_encode_fields xs)
      ∙ e
      ∙ sym (append-nil (canonical_encode_fields ys)))).0

-- Records that are encoded alike are alike in every signed field: no byte can be moved from one
-- field to the next, and none is left out.
pub encode_record-injective :
    (r s : RecordFields)
    → Fits (record_field_list r)
    → Fits (record_field_list s)
    → encode_record r ≡ encode_record s
    → r ≡ s
unfolding encode_record
encode_record-injective r s hr hs e =
    let fields = encode_injective (record_field_list r) (record_field_list s) refl hr hs e in
    ground arith

-- The same of announcements.
pub encode_announcement-injective :
    (a b : AnnouncementFields)
    → Fits (announcement_field_list a)
    → Fits (announcement_field_list b)
    → encode_announcement a ≡ encode_announcement b
    → a ≡ b
unfolding encode_announcement
encode_announcement-injective a b ha hb e =
    let fields =
      encode_injective (announcement_field_list a) (announcement_field_list b) refl ha hb e in
    ground arith
