-- ===== src/Scraper/Job/Scraped.antt =====
-- The ids of scraped records (src/scraper/job.rs).
use dsearch.Base.{
  ℕ, ◌≡◌, ◌≢◌, refl, sym, ap, ◌∙◌, true, List, [], ◌∷◌, ◌++◌, ok, Text, codes, join, as_bytes,
  encode_char, decimal, text_eq_iff, arith, map,
}
use mathlib.Core.Path.{subst}
use dsearch.Model.{ContentRecord}
use dsearch.Sanitize.{sanitize_record, sanitize_chars, is_control, is_format_char}
use dsearch.Sanitize.Accepted.{cleaned, sanitize_record_iff}
use dsearch.Sanitize.Clean.{IsClean, sanitize_chars_clean}
use dsearch.Scraper.Job.{scraped_record}
use dsearch.Storage.Store.Passed.{verify_record_id}
use dsearch.Api.Platform.{Platform}
use dsearch.Trust.Sign.{canonical_encode_fields, compute_record_id}
use dsearch.Trust.Sign.Encoding.{Fits, encode_injective}
use dsearch.Trust.Verify as Verify

-- The fields under the id of a record, as it is verified.
abbrev pub id_fields : ContentRecord → List (List ℕ)
id_fields r =
    as_bytes r.source_url
    ∷ as_bytes r.source_hash
    ∷ as_bytes r.schema
    ∷ as_bytes (join (codes ",") r.tags)
    ∷ as_bytes r.body
    ∷ as_bytes (decimal r.created_at)
    ∷ []

-- The fields that the id of a scraped record is computed from.
abbrev pub scraped_fields : ContentRecord → List (List ℕ)
scraped_fields r =
    as_bytes r.source_url
    ∷ as_bytes r.source_hash
    ∷ as_bytes r.schema
    ∷ []
    ∷ as_bytes r.body
    ∷ as_bytes (decimal r.created_at)
    ∷ []

-- Two texts with one digest.
abbrev pub Collision : (List ℕ → Text) → Type 0
Collision blake3_hex = (a : List ℕ) × (b : List ℕ) × (a ≢ b) × (blake3_hex a ≡ blake3_hex b)

abbrev fourth : List (List ℕ) → List ℕ
fourth (a ∷ b ∷ c ∷ d ∷ l) = d
fourth l = []

-- The tag of a scraped record does not get lost.
tag_kept :
    (name : Text)
    → as_bytes (join (codes ",") (map sanitize_chars ((codes "scraper:" ++ name) ∷ []))) ≢ []
unfolding sanitize_chars is_control is_format_char as_bytes encode_char join
tag_kept name e = cc

module _ (P : Platform) where
  verified_hash :
      (r : ContentRecord)
      → (verify_record_id P.blake3_hex r).valid ≡ true
      → P.blake3_hex (canonical_encode_fields (id_fields r)) ≡ r.id
  unfolding verify_record_id Verify.verify_record_id compute_record_id
  verified_hash r valid =
      ground (arith, text_eq_iff (P.blake3_hex (canonical_encode_fields (id_fields r))) r.id)

  scraped_hash :
      (name target lifecycle body : Text) (ttl_secs now : ℕ)
      → P.blake3_hex (
          canonical_encode_fields
            (scraped_fields (scraped_record P name target lifecycle ttl_secs body now)))
        ≡ (scraped_record P name target lifecycle ttl_secs body now).id
  unfolding scraped_record compute_record_id
  scraped_hash name target lifecycle body ttl_secs now = refl

  clean_tags :
      (name target lifecycle body : Text) (ttl_secs now : ℕ)
      → as_bytes (
          join
            (codes ",")
            (cleaned (scraped_record P name target lifecycle ttl_secs body now)).tags)
        ≢ []
  unfolding scraped_record cleaned
  clean_tags name target lifecycle body ttl_secs now = tag_kept name

  -- The id of a scraped record is computed without its tag. When the record that is stored is
  -- verified nevertheless, Blake3 has a collision, if its digests have allowed characters only and
  -- the fields fit their length prefixes.
  pub scraped_record_unverified :
      (name target lifecycle body : Text) (ttl_secs now : ℕ) (clean : ContentRecord)
      → ((bytes : List ℕ) → IsClean (P.blake3_hex bytes))
      → sanitize_record (scraped_record P name target lifecycle ttl_secs body now) ≡ ok clean
      → Fits (id_fields clean)
      → Fits (scraped_fields (scraped_record P name target lifecycle ttl_secs body now))
      → (verify_record_id P.blake3_hex clean).valid ≡ true
      → Collision P.blake3_hex
  unfolding cleaned
  scraped_record_unverified name target lifecycle body ttl_secs now clean hex accepted fits fits'
        valid =
      let r = scraped_record P name target lifecycle ttl_secs body now in
      let same : clean ≡ cleaned r = ((sanitize_record_iff r clean).0 accepted).0 in
      let tags_left : as_bytes (join (codes ",") clean.tags) ≢ [] =
        subst (λ x. as_bytes (join (codes ",") x.tags) ≢ []) (sym same)
          (clean_tags name target lifecycle body ttl_secs now) in
      let hash = scraped_hash name target lifecycle body ttl_secs now in
      let same_id : clean.id ≡ r.id =
        ap (λ x. x.id) same
        ∙ sanitize_chars_clean r.id
            (subst IsClean hash (hex (canonical_encode_fields (scraped_fields r)))) in
      (
        canonical_encode_fields (id_fields clean),
        canonical_encode_fields (scraped_fields r),
        (λ e.
            let fields = encode_injective (id_fields clean) (scraped_fields r) refl fits fits' e in
            tags_left (ap fourth fields)),
        verified_hash clean valid ∙ same_id ∙ sym hash,
      )
