-- ===== src/Tests/Network.antt =====
-- Runs of the routing table and of sanitizing, and the theorems at them.
use dsearch.Base.{
  ℕ, ◌≡◌, refl, [], ◌∷◌, none, Text, byte_len, char_size, codes, text_eq, lookup, ok,
}
use dsearch.Model.{ContentRecord}
use dsearch.Model.Source.{url}
use dsearch.Model.Refresh.{once}
use dsearch.Node.Dht.{RoutingEntry, RoutingTable}
use dsearch.Sanitize.{
  sanitize_record, sanitize_chars, sanitize_string, validate_body_size, sanitize_tags, validate_tag,
  validate_key_size, validate_value_size, split_colon, is_control, is_format_char,
}
use dsearch.Sanitize.Accepted.{cleaned}

abbrev peer : Text → ℕ → RoutingEntry
peer id last_seen = record { node_id = id; addr = codes "x"; roles = []; last_seen = last_seen }

abbrev table : RoutingTable
table = record {
  buckets = (codes "0f", peer (codes "0f") 10) ∷ (codes "f0", peer (codes "f0") 2000) ∷ [];
}

other_id : lookup (codes "0f") ((codes "f0", peer (codes "f0") 2000) ∷ []) ≡ none
unfolding lookup text_eq
other_id = refl

abbrev bell : ContentRecord
bell = record {
  id = codes "r1";
  source_url = codes "https://a";
  source_hash = codes "h";
  schema = codes "s";
  tags = codes "k:v" ∷ [];
  body = 7 ∷ codes "text";
  created_at = 1;
  expires_at = 0;
  scrape_source = url;
  refresh_policy = once;
  sig = [];
}

bell_ok : sanitize_record bell ≡ ok (cleaned bell)
unfolding sanitize_record sanitize_string sanitize_chars validate_body_size sanitize_tags
    validate_tag validate_key_size validate_value_size split_colon is_control is_format_char
    byte_len char_size cleaned
bell_ok = refl
