-- ===== src/Tests/Trust.antt =====
-- The theorems on signatures, ids and proof of work at concrete parameters.
use dsearch.Base.{
  ℕ, ◌-◌, ◌^◌, ◌<◌, ◌≡◌, ◌≢◌, ◌↔◌, refl, true, some, List, [], ◌∷◌, replicate, Text, codes, text_eq,
  arith, is_some,
}
use dsearch.Trust.Sign.{RecordFields, Ed25519}
use dsearch.Trust.Verify.RecordId.{Content}
use dsearch.Trust.Pow.{
  PowSolution, max_nonce, difficulty_to_threshold, meets_difficulty, hash_pow, mine_from, mine_pow,
  verify_pow,
}
use dsearch.Trust.Pow.Difficulty.{value}
use dsearch.Trust.Pow.Mining.{IsDigest, verify_pow_iff, mine_pow_total}

abbrev fields : ℕ → RecordFields
fields n = record {
  id = n ∷ 2 ∷ [];
  source_url = [];
  source_hash = 3 ∷ [];
  schema = 4 ∷ [];
  tags = [];
  body = 5 ∷ 6 ∷ 7 ∷ [];
  created_at = 49 ∷ [];
  expires_at = 50 ∷ [];
  scrape_source = [];
  refresh_policy = [];
}

-- A signature that is the message itself.
abbrev plain : Ed25519
plain = record {
  SigningKey = Unit {0};
  VerifyingKey = Unit {0};
  Signature = List ℕ;
  verifying_key = λ sk. sk;
  sign = λ sk message. message;
  verify = λ vk message sig. text_eq message sig;
}

abbrev content : ℕ → Content
content n = record {
  source_url = n ∷ [];
  source_hash = 2 ∷ [];
  schema = 3 ∷ [];
  tags = [];
  body = 4 ∷ [];
  created_at = 5 ∷ [];
}

-- A digest with collisions: it is the same for every message.
abbrev constant_hex : List ℕ → Text
constant_hex message = codes "00"

contents_differ : content 1 ≢ content 2
contents_differ e = ground arith

-- A digest of 32 zero bytes.
abbrev zero_digest : List ℕ → List ℕ
zero_digest message = replicate 32 0

zero_digest-IsDigest : IsDigest zero_digest
zero_digest-IsDigest = record { size = λ bs. refl; bytes = λ bs. omega arith }

abbrev solved : PowSolution
solved = record { nonce = 0; difficulty = 16; hash = replicate 32 0 }

verify_pow_iff_example : (verify_pow zero_digest (7 ∷ []) solved ≡ true) ↔ (
    (hash_pow zero_digest (7 ∷ []) 0 ≡ replicate 32 0)
    × (16 < 255)
    × (value (replicate 32 0) < 2 ^ (256 - 16)))
verify_pow_iff_example =
    verify_pow_iff zero_digest (7 ∷ []) zero_digest-IsDigest solved (omega arith)

mined : mine_pow zero_digest (7 ∷ []) 16 ≡ some solved
unfolding mine_pow mine_from hash_pow difficulty_to_threshold meets_difficulty max_nonce
mined = refl

first_nonce : 0 < max_nonce
unfolding max_nonce
first_nonce = omega arith

small_digest : value (hash_pow zero_digest (7 ∷ []) 0) < 2 ^ (256 - 16)
unfolding value hash_pow
small_digest = omega arith

mine_pow_total_example : is_some (mine_pow zero_digest (7 ∷ []) 16) ≡ true
mine_pow_total_example =
    mine_pow_total zero_digest (7 ∷ []) zero_digest-IsDigest 16 0 (omega arith) first_nonce
      small_digest
