-- ===== src/Trust/Verify/RecordId.antt =====
-- Record ids and the content that they are computed from (src/trust/verify.rs).
use dsearch.Base.{ℕ, ◌≡◌, refl, sym, ◌∙◌, ◌≢◌, true, List, [], ◌∷◌, Text, arith, text_eq_iff}
use dsearch.Trust.Sign.{canonical_encode_fields, compute_record_id}
use dsearch.Trust.Sign.Encoding.{Fits, encode_injective}
use dsearch.Trust.Verify.{verify_record_id}

-- The six fields that an id covers.
pub record Content : Type 0 where
  pub source_url : List ℕ
  pub source_hash : List ℕ
  pub schema : List ℕ
  pub tags : List ℕ
  pub body : List ℕ
  pub created_at : List ℕ

abbrev pub content_list : Content → List (List ℕ)
content_list c = c.source_url ∷ c.source_hash ∷ c.schema ∷ c.tags ∷ c.body ∷ c.created_at ∷ []

module _ (blake3_hex : List ℕ → Text) (id : Text) where
  abbrev pub HasId : Content → Type 0
  HasId c =
      (verify_record_id blake3_hex id c.source_url c.source_hash c.schema c.tags c.body
        c.created_at).valid
      ≡ true

  verify_record_id-hash :
      (c : Content) → HasId c → blake3_hex (canonical_encode_fields (content_list c)) ≡ id
  unfolding verify_record_id compute_record_id
  verify_record_id-hash c h =
      ground (arith, text_eq_iff (blake3_hex (canonical_encode_fields (content_list c))) id)

  -- Where two different contents are both accepted under one id, Blake3 has a collision: their
  -- encodings differ and have one digest.
  pub verify_record_id_collision :
      (c d : Content)
      → Fits (content_list c)
      → Fits (content_list d)
      → HasId c
      → HasId d
      → c ≢ d
      → (canonical_encode_fields (content_list c) ≢ canonical_encode_fields (content_list d))
        × (blake3_hex (canonical_encode_fields (content_list c))
            ≡ blake3_hex (canonical_encode_fields (content_list d)))
  verify_record_id_collision c d hc hd vc vd ne = (
    (λ e.
        let fields = encode_injective (content_list c) (content_list d) refl hc hd e in
        ne (ground arith)),
    verify_record_id-hash c vc ∙ sym (verify_record_id-hash d vd),
  )
