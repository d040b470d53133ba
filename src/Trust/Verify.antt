-- ===== src/Trust/Verify.antt =====
-- Verification results (src/trust/verify.rs).
pub mod RecordId
use dsearch.Base.{
  ℕ, Bool, true, false, Option, none, some, List, if◌then◌else◌, Text, text_eq, codes,
}
use dsearch.Trust.Sign.{
  RecordFields, AnnouncementFields, Ed25519, verify_record_sig, verify_announcement_sig,
  compute_record_id,
}

pub record VerifyResult : Type 0 where
  pub valid : Bool
  pub reason : Option Text

abbrev pub valid_result : VerifyResult
valid_result = record { valid = true; reason = none }

abbrev pub fail : Text → VerifyResult
fail reason = record { valid = false; reason = some reason }

module _ (E : Ed25519) where
  unfoldable pub verify_record_signature :
      E.VerifyingKey → RecordFields → E.Signature → VerifyResult
  verify_record_signature verifying_key fields sig =
      if verify_record_sig E verifying_key fields sig
      then valid_result
      else fail (codes "ContentRecord signature verification failed")

  unfoldable pub verify_announcement_signature :
      E.VerifyingKey → AnnouncementFields → E.Signature → VerifyResult
  verify_announcement_signature verifying_key fields sig =
      if verify_announcement_sig E verifying_key fields sig
      then valid_result
      else fail (codes "Announcement signature verification failed")

unfoldable pub verify_record_id :
    (List ℕ → Text) → Text → List ℕ → List ℕ → List ℕ → List ℕ → List ℕ → List ℕ → VerifyResult
verify_record_id blake3_hex record_id source_url source_hash schema tags body created_at =
    if text_eq (compute_record_id blake3_hex source_url source_hash schema tags body created_at)
      record_id
    then valid_result
    else fail (codes "record_id does not match content hash")
