-- ===== src/Storage/Store/Signing.antt =====
-- The signatures that the store makes and checks (src/storage/mod.rs).
use dsearch.Base.{
  ℕ, Bool, ◌&&◌, Option, none, some, List, [], ◌∷◌, ◌==◌, leb, if◌then◌else◌, codes, length,
  as_bytes, join, decimal, hex_digit, hex_pair, to_hex, is_empty_text,
}
use dsearch.Model.{ContentRecord, Announcement}
use dsearch.Model.Source as Source
use dsearch.Model.Refresh as Refresh
use dsearch.Trust.Sign.{
  RecordFields, AnnouncementFields, Ed25519, sign_record, verify_record_sig, sign_announcement,
  verify_announcement_sig,
}
use dsearch.Trust.Verify.{
  VerifyResult, fail, verify_record_signature, verify_announcement_signature,
}

-- The 64 bytes of a signature of `ed25519_dalek`.
pub record SignatureBytes (E : Ed25519) : Type 0 where
  pub to_bytes : E.Signature → List ℕ
  pub from_bytes : List ℕ → E.Signature

unfoldable pub record_fields : ContentRecord → RecordFields
record_fields r = record {
  id = as_bytes r.id;
  source_url = as_bytes r.source_url;
  source_hash = as_bytes r.source_hash;
  schema = as_bytes r.schema;
  tags = as_bytes (join (codes ",") r.tags);
  body = as_bytes r.body;
  created_at = as_bytes (decimal r.created_at);
  expires_at = as_bytes (decimal r.expires_at);
  scrape_source = as_bytes (Source.as_str r.scrape_source);
  refresh_policy = as_bytes (Refresh.as_str r.refresh_policy);
}

unfoldable pub announcement_fields : Announcement → AnnouncementFields
announcement_fields a = record {
  record_id = as_bytes a.record_id;
  source_hash = as_bytes a.source_hash;
  schema = as_bytes a.schema;
  tags = as_bytes (join (codes ",") a.tags);
  holder_addr = as_bytes a.holder_addr;
  expires_at = as_bytes (decimal a.expires_at);
}

-- A byte inside a character, where slicing a string panics.
abbrev pub is_continuation : ℕ → Bool
is_continuation b = leb 128 b && leb b 191

abbrev pub push_byte : Option ℕ → List ℕ → List ℕ
push_byte none bytes = bytes
push_byte (some b) bytes = b ∷ bytes

abbrev pub read_pair : ℕ → Option ℕ → Option (List ℕ) → Option (List ℕ)
read_pair first byte none = none
read_pair first byte (some bytes) =
    if is_continuation first then none else some (push_byte byte bytes)

-- The bytes of a signature from its text, two characters for each; what does not read is left out,
-- and a last character alone is read by itself. `none` is a panic.
unfoldable pub sig_bytes : List ℕ → Option (List ℕ)
sig_bytes [] = some []
sig_bytes (a ∷ []) = read_pair a (hex_digit a) (some [])
sig_bytes (a ∷ b ∷ s) = read_pair a (hex_pair a b) (sig_bytes s)

module _ (E : Ed25519) (B : SignatureBytes E) where
  -- A record without a signature is signed, if there is a key; `none` is a signature that does not
  -- verify.
  unfoldable pub sign_if_needed : Option E.SigningKey → ContentRecord → Option ContentRecord
  sign_if_needed none r = some r
  sign_if_needed (some sk) r =
      let sig = sign_record E sk (record_fields r) in
      if is_empty_text r.sig
      then (if verify_record_sig E (E.verifying_key sk) (record_fields r) sig
          then some (record r { sig = to_hex (B.to_bytes sig) })
          else none)
      else some r

  abbrev pub with_signature : (E.Signature → VerifyResult) → Option (List ℕ) → Option VerifyResult
  with_signature check none = none
  with_signature check (some bytes) =
      if length bytes == 64
      then some (check (B.from_bytes bytes))
      else some (fail (codes "invalid signature length"))

  -- An announcement likewise.
  unfoldable pub sign_announcement_if_needed :
      Option E.SigningKey → Announcement → Option Announcement
  sign_announcement_if_needed none a = some a
  sign_announcement_if_needed (some sk) a =
      let sig = sign_announcement E sk (announcement_fields a) in
      if is_empty_text a.sig
      then (if verify_announcement_sig E (E.verifying_key sk) (announcement_fields a) sig
          then some (record a { sig = to_hex (B.to_bytes sig) })
          else none)
      else some a

  -- `Store::verify_record`; `none` is a panic.
  unfoldable pub verify_record : ContentRecord → E.VerifyingKey → Option VerifyResult
  verify_record r verifying_key =
      with_signature (verify_record_signature E verifying_key (record_fields r))
        (sig_bytes (as_bytes r.sig))

  unfoldable pub verify_announcement : Announcement → E.VerifyingKey → Option VerifyResult
  verify_announcement a verifying_key =
      with_signature (verify_announcement_signature E verifying_key (announcement_fields a))
        (sig_bytes (as_bytes a.sig))
