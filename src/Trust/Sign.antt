-- ===== src/Trust/Sign.antt =====
-- Canonical encodings and signatures (src/trust/sign.rs). Ed25519 and Blake3 are parameters.
pub mod Encoding
use dsearch.Base.{
  ℕ, ◌%◌, ◌^◌, ◌≡◌, Bool, true, List, [], ◌∷◌, ◌++◌, length, be_bytes, u32_mod, Text,
}

-- The fields in order, each behind its length as a big-endian `u32`.
unfoldable pub canonical_encode_fields : List (List ℕ) → List ℕ
canonical_encode_fields [] = []
canonical_encode_fields (field ∷ fields) =
    be_bytes (length field % u32_mod) ++ (field ++ canonical_encode_fields fields)

pub record RecordFields : Type 0 where
  pub id : List ℕ
  pub source_url : List ℕ
  pub source_hash : List ℕ
  pub schema : List ℕ
  pub tags : List ℕ
  pub body : List ℕ
  pub created_at : List ℕ
  pub expires_at : List ℕ
  pub scrape_source : List ℕ
  pub refresh_policy : List ℕ

abbrev pub record_field_list : RecordFields → List (List ℕ)
record_field_list r =
    r.id ∷ r.source_url ∷ r.source_hash ∷ r.schema ∷ r.tags ∷ r.body ∷ r.created_at ∷ r.expires_at
    ∷ r.scrape_source ∷ r.refresh_policy ∷ []

-- `RecordFields::encode`
unfoldable pub encode_record : RecordFields → List ℕ
encode_record r = canonical_encode_fields (record_field_list r)

pub record AnnouncementFields : Type 0 where
  pub record_id : List ℕ
  pub source_hash : List ℕ
  pub schema : List ℕ
  pub tags : List ℕ
  pub holder_addr : List ℕ
  pub expires_at : List ℕ

abbrev pub announcement_field_list : AnnouncementFields → List (List ℕ)
announcement_field_list a =
    a.record_id ∷ a.source_hash ∷ a.schema ∷ a.tags ∷ a.holder_addr ∷ a.expires_at ∷ []

-- `AnnouncementFields::encode`
unfoldable pub encode_announcement : AnnouncementFields → List ℕ
encode_announcement a = canonical_encode_fields (announcement_field_list a)

-- The signature scheme of `ed25519_dalek`.
pub record Ed25519 : Type 1 where
  pub SigningKey : Type 0
  pub VerifyingKey : Type 0
  pub Signature : Type 0
  pub verifying_key : SigningKey → VerifyingKey
  pub sign : SigningKey → List ℕ → Signature
  pub verify : VerifyingKey → List ℕ → Signature → Bool

-- The documented behaviour of the scheme: what a key signs, its verifying key accepts.
pub record IsEd25519 (E : Ed25519) : Type 0 where
  pub signed :
      (sk : E.SigningKey) (message : List ℕ)
      → E.verify (E.verifying_key sk) message (E.sign sk message) ≡ true

module _ (E : Ed25519) where
  unfoldable pub sign_record : E.SigningKey → RecordFields → E.Signature
  sign_record signing_key fields = E.sign signing_key (encode_record fields)

  unfoldable pub verify_record_sig : E.VerifyingKey → RecordFields → E.Signature → Bool
  verify_record_sig verifying_key fields sig = E.verify verifying_key (encode_record fields) sig

  unfoldable pub sign_announcement : E.SigningKey → AnnouncementFields → E.Signature
  sign_announcement signing_key fields = E.sign signing_key (encode_announcement fields)

  unfoldable pub verify_announcement_sig : E.VerifyingKey → AnnouncementFields → E.Signature → Bool
  verify_announcement_sig verifying_key fields sig =
      E.verify verifying_key (encode_announcement fields) sig

-- The id of a record; `blake3_hex` is the digest of `blake3` in hexadecimal.
unfoldable pub compute_record_id :
    (List ℕ → Text) → List ℕ → List ℕ → List ℕ → List ℕ → List ℕ → List ℕ → Text
compute_record_id blake3_hex source_url source_hash schema tags body created_at =
    blake3_hex
      (canonical_encode_fields (source_url ∷ source_hash ∷ schema ∷ tags ∷ body ∷ created_at ∷ []))
