-- ===== src/Api/Keys.antt =====
-- The keys of the gateway and their rate limit (src/api/gateway_keys.rs). The keys stand in one
-- file, which is its text here, or `none` where it does not exist; failures to read or write it are
-- left out. The random secret and the clock are arguments. JSON (`serde_json`), hexadecimal (`hex`)
-- and Blake3 are parameters.
pub mod Accepted
pub mod Rate
use dsearch.Base.{
  ℕ, ◌<◌, ◌≡◌, All, Bool, true, false, not, Option, none, some, List, [], ◌∷◌, ◌++◌, ltb, leb, ◌==◌,
  if◌then◌else◌, Result, ok, err, Text, text_eq, any, retain, length, lookup, put, or_insert,
  sub_u64, add_u32,
}

pub record GatewayKeyInfo : Type 0 where
  pub nickname : Text
  pub key_hash : Text
  pub created_at : ℕ
  pub last_used : ℕ
  pub request_count : ℕ

-- Libraries: JSON of a list of keys, hexadecimal, and the digest of Blake3 in hexadecimal.
pub record KeyCodec : Type 0 where
  pub to_json : List GatewayKeyInfo → Option Text
  pub from_json : Text → Option (List GatewayKeyInfo)
  pub hex_encode : List ℕ → Text
  pub hex_decode : Text → Option (List ℕ)
  pub blake3_hex : List ℕ → Text

-- Their documented behaviour: what is written is read back.
pub record IsKeyCodec (C : KeyCodec) : Type 0 where
  pub json_read :
      (keys : List GatewayKeyInfo) (t : Text) → C.to_json keys ≡ some t → C.from_json t ≡ some keys
  pub hex_read :
      (bytes : List ℕ) → All (λ b. b < 256) bytes → C.hex_decode (C.hex_encode bytes) ≡ some bytes

pub data KeyError : Type 0 where
  duplicate_nickname : Text → KeyError
  parse_failed serialize_failed : KeyError

abbrev pub or_empty : Option (List GatewayKeyInfo) → List GatewayKeyInfo
or_empty none = []
or_empty (some keys) = keys

abbrev pub has_nickname : Text → GatewayKeyInfo → Bool
has_nickname nickname k = text_eq k.nickname nickname

module _ (C : KeyCodec) where
  -- The keys that a new one is added to; a file that does not parse counts as empty.
  unfoldable pub existing_keys : Option Text → List GatewayKeyInfo
  existing_keys none = []
  existing_keys (some contents) = or_empty (C.from_json contents)

  unfoldable pub new_key : Text → ℕ → List ℕ → GatewayKeyInfo
  new_key nickname now secret = record {
    nickname = nickname;
    key_hash = C.blake3_hex secret;
    created_at = now;
    last_used = 0;
    request_count = 0;
  }

  -- The file with these keys.
  unfoldable pub write_keys {ℓ} :
      {A : Type ℓ} → Option Text → List GatewayKeyInfo → A → Result A KeyError × Option Text
  write_keys file keys result = elim (C.to_json keys) [
    | none ↦ (err serialize_failed, file)
    | some json ↦ (ok result, some json)
  ]

  unfoldable pub create_key :
      Option Text → Text → ℕ → List ℕ → Result (Text × GatewayKeyInfo) KeyError × Option Text
  create_key file nickname now secret =
      let info = new_key nickname now secret in
      let keys = existing_keys file in
      if any (has_nickname nickname) keys
      then (err (duplicate_nickname nickname), file)
      else write_keys file (keys ++ info ∷ []) (C.hex_encode secret, info)

  unfoldable pub list_keys : Option Text → Result (List GatewayKeyInfo) KeyError
  list_keys none = ok []
  list_keys (some contents) = elim (C.from_json contents) [
    | none ↦ err parse_failed
    | some keys ↦ ok keys
  ]

  unfoldable pub revoke_key : Option Text → Text → Result Bool KeyError × Option Text
  revoke_key none nickname = (ok false, none)
  revoke_key (some contents) nickname = elim (C.from_json contents) [
    | none ↦ (err parse_failed, some contents)
    | some keys ↦
        let kept = retain (λ k. not (has_nickname nickname k)) keys in
        if length kept == length keys
        then (ok false, some contents)
        else write_keys (some contents) kept true
  ]

  unfoldable pub has_hash : Text → Result (List GatewayKeyInfo) KeyError → Bool
  has_hash hash (ok keys) = any (λ k. text_eq k.key_hash hash) keys
  has_hash hash (err e) = false

  unfoldable pub validate_key : Option Text → Text → Bool
  validate_key file raw_key = elim (C.hex_decode raw_key) [
    | none ↦ false
    | some bytes ↦
        if length bytes == 32 then has_hash (C.blake3_hex bytes) (list_keys file) else false
  ]

pub record RateLimitEntry : Type 0 where
  pub count : ℕ
  pub window_start : ℕ

abbrev pub new_window : ℕ → RateLimitEntry
new_window now = record { count = 0; window_start = now }

-- The entry of an identifier, reset where its window is over; the difference of `u64` wraps.
unfoldable pub current_entry : List (Text × RateLimitEntry) → ℕ → Text → RateLimitEntry
current_entry limits now identifier =
    let entry = or_insert (lookup identifier limits) (new_window now) in
    if leb 60 (sub_u64 now entry.window_start) then new_window now else entry

unfoldable pub check_rate_limit :
    List (Text × RateLimitEntry) → ℕ → Text → ℕ → Bool × List (Text × RateLimitEntry)
check_rate_limit limits now identifier limit_per_min =
    let entry = current_entry limits now identifier in
    let count = add_u32 entry.count 1 in
    (leb count limit_per_min, put identifier (record entry { count = count }) limits)
