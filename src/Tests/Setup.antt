-- ===== src/Tests/Setup.antt =====
-- Runs of the configuration and of scraped pages, and the theorems at them.
use dsearch.Base.{
  ℕ, ◌<◌, ◌≤◌, ◌≡◌, refl, Bool, true, false, none, some, List, [], ◌∷◌, ◌++◌, Result, ok, err, Text,
  codes, text_eq, lookup, as_bytes, encode_char, decimal, digits_from, join, All, arith, length,
}
use dsearch.Bootstrap.Dns.{read_dns_name, read_name, name_fuel}
use dsearch.Bootstrap.Dns.Names.{read_dns_name_total}
use dsearch.Config.{default_config, invalid_value}
use dsearch.Config.Set.{set_config_value}
use dsearch.Config.Set.Viewed.{
  IsAnswered, kinds, numbers, number_value, read_value, set_config_value-IsAnswered,
}
use dsearch.Model.{ContentRecord}
use dsearch.Sanitize.{sanitize_record}
use dsearch.Sanitize.Clean.{IsClean}
use dsearch.Scraper.Feed.{extract_xml_blocks}
use dsearch.Scraper.Feed.Blocks.{print_blocks, extract_xml_blocks-print_blocks}
use dsearch.Scraper.Job.{base64_decode, scraped_record}
use dsearch.Scraper.Job.Base64.{encode64, base64_decode-encode64}
use dsearch.Scraper.Job.Scraped.{Collision, id_fields, scraped_fields, scraped_record_unverified}
use dsearch.Storage.Store.Passed.{verify_record_id}
use dsearch.Tests.Platform.{small_platform}
use dsearch.Trust.Sign.Encoding.{Fits}

set_config_value-IsAnswered_example :
    IsAnswered default_config
      (codes "api.port")
      (codes "8888")
      (lookup (codes "api.port") kinds)
      (set_config_value default_config (codes "api.port") (codes "8888"))
set_config_value-IsAnswered_example =
    set_config_value-IsAnswered default_config (codes "api.port") (codes "8888")

-- The port is a number of 16 bits.
port_kind : lookup (codes "api.port") kinds ≡ some (numbers 16)
unfolding lookup text_eq
port_kind = refl

port_read : read_value (numbers 16) (codes "8888") ≡ some (number_value 8888)
unfolding dsearch.Search.Dates.parse_number
port_read = refl

port_too_large :
    set_config_value default_config (codes "api.port") (codes "65536")
    ≡ err (invalid_value (codes "api.port"))
unfolding set_config_value lookup text_eq dsearch.Search.Dates.parse_number
port_too_large = refl

base64_decode-encode64_example :
    base64_decode (encode64 (255 ∷ 0 ∷ 7 ∷ 200 ∷ [])) ≡ some (255 ∷ 0 ∷ 7 ∷ 200 ∷ [])
base64_decode-encode64_example = base64_decode-encode64 (255 ∷ 0 ∷ 7 ∷ 200 ∷ []) (ground arith)

abbrev page : ContentRecord
page =
    scraped_record small_platform (codes "j") (codes "http://h/") (codes "pinned") 0 (codes "b") 9

page_clean : sanitize_record page ≡ ok page
unfolding scraped_record sanitize_record dsearch.Sanitize.sanitize_string
    dsearch.Sanitize.validate_body_size dsearch.Base.byte_len dsearch.Sanitize.sanitize_chars
    dsearch.Sanitize.is_control dsearch.Sanitize.is_format_char dsearch.Base.char_size
    dsearch.Sanitize.sanitize_tags dsearch.Sanitize.split_colon dsearch.Sanitize.validate_key_size
    dsearch.Sanitize.validate_tag dsearch.Sanitize.validate_value_size
    dsearch.Trust.Sign.compute_record_id dsearch.Trust.Normalize.compute_source_hash
page_clean = refl

digest-IsClean : (bytes : List ℕ) → IsClean (small_platform.blake3_hex bytes)
unfolding dsearch.Sanitize.Clean.is_allowed dsearch.Sanitize.is_control
    dsearch.Sanitize.is_format_char
digest-IsClean bytes = (refl, (refl, tt))

page-Fits : Fits (id_fields page)
unfolding scraped_record as_bytes join encode_char decimal digits_from
    dsearch.Trust.Normalize.compute_source_hash
page-Fits = ground arith

source-Fits : Fits (scraped_fields page)
unfolding scraped_record as_bytes join encode_char decimal digits_from
    dsearch.Trust.Normalize.compute_source_hash
source-Fits = ground arith

page_valid : (verify_record_id small_platform.blake3_hex page).valid ≡ true
unfolding scraped_record verify_record_id dsearch.Trust.Verify.verify_record_id
    dsearch.Trust.Sign.compute_record_id text_eq
page_valid = refl

scraped_record_unverified_example : Collision small_platform.blake3_hex
scraped_record_unverified_example =
    scraped_record_unverified small_platform (codes "j") (codes "http://h/") (codes "pinned")
      (codes "b") 0 9 page digest-IsClean page_clean page-Fits source-Fits page_valid

-- A pointer to itself.
read_dns_name_total_example :
    read_name (λ t. t) (name_fuel (192 ∷ 0 ∷ [])) (192 ∷ 0 ∷ []) 0 false 0 []
    ≡ some (read_dns_name (λ t. t) (192 ∷ 0 ∷ []) 0)
read_dns_name_total_example = read_dns_name_total (λ t. t) (192 ∷ 0 ∷ []) 0

abbrev two_items : List Text
two_items = codes "a" ∷ [] ∷ []

extract_xml_blocks-print_blocks_example :
    extract_xml_blocks (print_blocks (codes "item") two_items) (codes "item") ≡ two_items
extract_xml_blocks-print_blocks_example =
    extract_xml_blocks-print_blocks (codes "item") two_items (refl, (refl, (refl, (refl, tt))))
      ((refl, tt), (tt, tt))
