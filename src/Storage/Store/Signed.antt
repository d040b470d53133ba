-- ===== src/Storage/Store/Signed.antt =====
-- Signing and verifying in the store (src/storage/mod.rs).
use dsearch.Base.{
  ℕ, ◌/◌, ◌<◌, ◌≡◌, refl, ◌∙◌, ap, true, false, some, List, [], ◌∷◌, length, All, as_bytes, to_hex,
  to_hex_digit, hex_pair-to_hex, as_bytes-to_hex, is_empty_text, arith,
}
use dsearch.Model.{ContentRecord}
use dsearch.Trust.Sign.{Ed25519, IsEd25519, sign_record, verify_record_sig, encode_record}
use dsearch.Trust.Verify.{VerifyResult, valid_result, verify_record_signature}
use dsearch.Storage.Store.Signing.{
  SignatureBytes, record_fields, is_continuation, sig_bytes, sign_if_needed, with_signature,
  verify_record,
}

-- The documented behaviour: a signature is 64 bytes, and they give it back.
pub record IsSignatureBytes {E : Ed25519} (B : SignatureBytes E) : Type 0 where
  pub size : (sig : E.Signature) → length (B.to_bytes sig) ≡ 64
  pub in_range : (sig : E.Signature) → All (λ b. b < 256) (B.to_bytes sig)
  pub read_back : (sig : E.Signature) → B.from_bytes (B.to_bytes sig) ≡ sig

digit_starts : (n : ℕ) → n < 16 → is_continuation (to_hex_digit n) ≡ false
digit_starts n h = ground arith

sig_bytes-to_hex : (bs : List ℕ) → All (λ b. b < 256) bs → sig_bytes (to_hex bs) ≡ some bs
unfolding sig_bytes to_hex
sig_bytes-to_hex [] h = refl
sig_bytes-to_hex (b ∷ bs) (lt, h) =
    rw (sig_bytes-to_hex bs h, hex_pair-to_hex b lt, digit_starts (b / 16) (omega arith)) refl

module _ {E : Ed25519} (scheme : IsEd25519 E) {B : SignatureBytes E}
    (bytes : IsSignatureBytes B) where
  verified :
      (sk : E.SigningKey) (r : ContentRecord)
      → verify_record_sig E
          (E.verifying_key sk)
          (record_fields r)
          (sign_record E sk (record_fields r))
        ≡ true
  unfolding verify_record_sig sign_record
  verified sk r = scheme.signed sk (encode_record (record_fields r))

  decoded :
      (sig : E.Signature) → sig_bytes (as_bytes (to_hex (B.to_bytes sig))) ≡ some (B.to_bytes sig)
  decoded sig =
      ap sig_bytes (as_bytes-to_hex (B.to_bytes sig) (bytes.in_range sig))
      ∙ sig_bytes-to_hex (B.to_bytes sig) (bytes.in_range sig)

  abbrev signature : E.SigningKey → ContentRecord → E.Signature
  signature sk r = sign_record E sk (record_fields r)

  abbrev signed_record : E.SigningKey → ContentRecord → ContentRecord
  signed_record sk r = record r { sig = to_hex (B.to_bytes (signature sk r)) }

  signed_if_needed :
      (sk : E.SigningKey) (r : ContentRecord)
      → r.sig ≡ []
      → sign_if_needed E B (some sk) r ≡ some (signed_record sk r)
  unfolding sign_if_needed
  signed_if_needed sk r unsigned = rw (ap is_empty_text unsigned, verified sk r) refl

  with_own_signature :
      (check : E.Signature → VerifyResult) (sig : E.Signature)
      → with_signature E B check (some (B.to_bytes sig)) ≡ some (check sig)
  with_own_signature check sig = rw (bytes.size sig, bytes.read_back sig) refl

  own_signature :
      (sk : E.SigningKey) (r : ContentRecord)
      → verify_record_signature E (E.verifying_key sk) (record_fields r) (signature sk r)
        ≡ valid_result
  unfolding verify_record_signature
  own_signature sk r = rw (verified sk r) refl

  verify_signed :
      (sk : E.SigningKey) (r : ContentRecord)
      → verify_record E B (signed_record sk r) (E.verifying_key sk) ≡ some valid_result
  unfolding verify_record record_fields
  verify_signed sk r =
      let check = verify_record_signature E (E.verifying_key sk) (record_fields r) in
      ap (with_signature E B check) (decoded (signature sk r))
      ∙ with_own_signature check (signature sk r)
      ∙ ap some (own_signature sk r)

  -- A record without a signature is signed under any key, only its signature changes, and the
  -- signed record verifies under the key, without a panic.
  pub verify_record-sign_if_needed :
      (sk : E.SigningKey) (r : ContentRecord)
      → r.sig ≡ []
      → (signed : ContentRecord) × (sign_if_needed E B (some sk) r ≡ some signed)
        × (signed ≡ record r { sig = signed.sig })
        × (verify_record E B signed (E.verifying_key sk) ≡ some valid_result)
  verify_record-sign_if_needed sk r unsigned =
      (signed_record sk r, signed_if_needed sk r unsigned, refl, verify_signed sk r)
