-- ===== src/Api/Keys/Accepted.antt =====
-- Which keys the gateway accepts (src/api/gateway_keys.rs).
use dsearch.Base.{
  ℕ, ◌<◌, All, ◌≡◌, refl, sym, ◌∙◌, ap, inl, inr, Bool, true, false, not, ◌&&◌, ◌||◌, Option, none,
  some, List, [], ◌∷◌, ◌++◌, ◌==◌, Result, ok, Text, text_eq, text_eq_refl, any, any-append, retain,
  length, length-retain-le, length-append, arith, Bool-cases, Option-cases,
}
use dsearch.Api.Keys.{
  GatewayKeyInfo, KeyCodec, IsKeyCodec, has_nickname, existing_keys, new_key, write_keys,
  create_key, list_keys, revoke_key, has_hash, validate_key, KeyError,
}

retain-not {ℓ} :
    {A : Type ℓ} (p : A → Bool) (l : List A) → any p l ≡ false → retain (λ x. not (p x)) l ≡ l
unfolding any retain
retain-not p [] h = refl
retain-not p (x ∷ l) h = ground (arith, retain-not p l)

retain-not_last {ℓ} :
    {A : Type ℓ} (p : A → Bool) (l : List A) (x : A)
    → any p l ≡ false
    → p x ≡ true
    → retain (λ y. not (p y)) (l ++ x ∷ []) ≡ l
unfolding any retain
retain-not_last p [] x h last = rw last refl
retain-not_last p (y ∷ l) x h last = ground (arith, retain-not_last p l x)

length-retain-not {ℓ} :
    {A : Type ℓ} (p : A → Bool) (l : List A)
    → (length (retain (λ x. not (p x)) l) == length l) ≡ not (any p l)
unfolding any retain
length-retain-not p [] = refl
length-retain-not p (x ∷ l) =
    ground (arith, length-retain-not p l, length-retain-le (λ y. not (p y)) l)

module _ (C : KeyCodec) where
  -- Whether a raw key is one of these keys.
  unfoldable pub is_key_of : List GatewayKeyInfo → Text → Bool
  is_key_of keys raw_key = elim (C.hex_decode raw_key) [
    | none ↦ false
    | some bytes ↦ length bytes == 32 && any (λ k. text_eq k.key_hash (C.blake3_hex bytes)) keys
  ]

  -- A file that does not parse has no keys, for validation too.
  validate_key_lem :
      (file : Option Text) (raw_key : Text)
      → validate_key C file raw_key ≡ is_key_of (existing_keys C file) raw_key
  unfolding validate_key is_key_of existing_keys list_keys has_hash any
  validate_key_lem none raw_key = elim (Option-cases (C.hex_decode raw_key)) [
    | inl e ↦ rw (e, validate_key, is_key_of) refl
    | inr (bytes, e) ↦ rw (e, validate_key, is_key_of) (ground arith)
  ]
  validate_key_lem (some contents) raw_key = elim (Option-cases (C.hex_decode raw_key)) [
    | inl e ↦ rw (e, validate_key, is_key_of) refl
    | inr (bytes, e) ↦
        rw (e, validate_key, is_key_of)
          (elim (Option-cases (C.from_json contents)) [
            | inl f ↦ rw (f, list_keys, existing_keys) (ground arith)
            | inr (keys, f) ↦ rw (f, list_keys, existing_keys) (ground arith)
          ])
  ]

  is_key_of-append :
      (keys keys' : List GatewayKeyInfo) (raw_key : Text)
      → is_key_of (keys ++ keys') raw_key ≡ (is_key_of keys raw_key || is_key_of keys' raw_key)
  unfolding is_key_of
  is_key_of-append keys keys' raw_key = elim (Option-cases (C.hex_decode raw_key)) [
    | inl e ↦ rw (e, is_key_of) refl
    | inr (bytes, e) ↦ rw (e, is_key_of, any-append) (ground arith)
  ]

  -- What an accepted creation has done.
  create_key_ok :
      (file : Option Text) (nickname : Text) (now : ℕ) (secret : List ℕ) (raw : Text)
      (info : GatewayKeyInfo)
      → (create_key C file nickname now secret).0 ≡ ok (raw, info)
      → (json : Text) × (any (has_nickname nickname) (existing_keys C file) ≡ false)
        × (C.to_json (existing_keys C file ++ info ∷ []) ≡ some json)
        × ((create_key C file nickname now secret).1 ≡ some json)
        × (raw ≡ C.hex_encode secret)
        × (info ≡ new_key C nickname now secret)
  unfolding create_key write_keys
  create_key_ok file nickname now secret raw info done =
      let keys = existing_keys C file in
      let key = new_key C nickname now secret in
      elim (Bool-cases (any (has_nickname nickname) keys)) [
        | inl taken ↦ absurd (cc (rw taken at done))
        | inr free ↦ elim (Option-cases (C.to_json (keys ++ key ∷ []))) [
          | inl failed ↦ absurd (cc (rw (free, failed, write_keys) at done))
          | inr (json, wrote) ↦
              let runs : create_key C file nickname now secret
                  ≡ (ok (C.hex_encode secret, key), some json) =
                rw (free, wrote, create_key, write_keys) refl in
              let same : ◌≡◌ {A = Result (Text × GatewayKeyInfo) KeyError}
                  (ok (C.hex_encode secret, key)) (ok (raw, info)) =
                sym (ap (λ x. x.0) runs) ∙ done in
              let raw_same : raw ≡ C.hex_encode secret = cc in
              let info_same : info ≡ key = cc in
              (json, free, rw info_same wrote, ap (λ x. x.1) runs, raw_same, info_same)
        ]
      ]

  -- What is written reads back as the keys.
  existing_keys-json :
      IsKeyCodec C
      → (keys : List GatewayKeyInfo) (json : Text) → C.to_json keys ≡ some json
      → existing_keys C (some json) ≡ keys
  unfolding existing_keys
  existing_keys-json law keys json wrote = rw (law.json_read keys json wrote) refl

  -- A key that was created with a secret of 32 bytes is accepted, and so are the keys that were
  -- accepted before and those whose secrets have its hash; no others are.
  pub create_key-validate_key :
      IsKeyCodec C
      → (file : Option Text) (nickname : Text) (now : ℕ) (secret : List ℕ) (raw : Text)
        (info : GatewayKeyInfo)
      → length secret ≡ 32
      → All (λ b. b < 256) secret
      → (create_key C file nickname now secret).0 ≡ ok (raw, info)
      → (validate_key C (create_key C file nickname now secret).1 raw ≡ true)
        × ((raw_key : Text)
            → validate_key C (create_key C file nickname now secret).1 raw_key
              ≡ (validate_key C file raw_key || is_key_of (info ∷ []) raw_key))
  unfolding is_key_of any new_key
  create_key-validate_key law file nickname now secret raw info size bytes done =
      let (json, free, wrote, left, raw_same, info_same) =
        create_key_ok file nickname now secret raw info done in
      let exactly : (raw_key : Text)
          → validate_key C (create_key C file nickname now secret).1 raw_key
            ≡ (validate_key C file raw_key || is_key_of (info ∷ []) raw_key) =
        λ raw_key.
          ap (λ f. validate_key C f raw_key) left
          ∙ validate_key_lem (some json) raw_key
          ∙ ap (λ keys. is_key_of keys raw_key) (existing_keys-json law _ json wrote)
          ∙ is_key_of-append (existing_keys C file) (info ∷ []) raw_key
          ∙ ap (λ b. b || is_key_of (info ∷ []) raw_key) (sym (validate_key_lem file raw_key)) in
      let itself : is_key_of (info ∷ []) raw ≡ true =
        rw (raw_same, is_key_of, law.hex_read secret bytes, size)
          (rw (ap (λ k. k.key_hash) info_same, text_eq_refl) refl) in
      (exactly raw ∙ rw itself (ground arith), exactly)

  revoke_key_found :
      IsKeyCodec C
      → (keys : List GatewayKeyInfo) (info : GatewayKeyInfo) (nickname json json' : Text)
      → any (has_nickname nickname) keys ≡ false
      → has_nickname nickname info ≡ true
      → C.to_json keys ≡ some json
      → C.to_json (keys ++ info ∷ []) ≡ some json'
      → revoke_key C (some json') nickname ≡ (ok true, some json)
  unfolding revoke_key write_keys
  revoke_key_found law keys info nickname json json' free named old wrote =
      let longer : (length keys == length (keys ++ info ∷ [])) ≡ false =
        ground (arith, length-append keys (info ∷ [])) in
      rw
        (
          law.json_read _ json' wrote,
          revoke_key,
          retain-not_last (has_nickname nickname) keys info free named,
          longer,
          write_keys,
          old,
        )
        refl

  -- A key is revoked by the nickname that it was created with, and then exactly those are accepted
  -- that were accepted before it was created; this needs the earlier keys to have a JSON text.
  pub revoke_key-create_key :
      IsKeyCodec C
      → (file : Option Text) (nickname : Text) (now : ℕ) (secret : List ℕ) (raw : Text)
        (info : GatewayKeyInfo) (json : Text)
      → (create_key C file nickname now secret).0 ≡ ok (raw, info)
      → C.to_json (existing_keys C file) ≡ some json
      → ((revoke_key C (create_key C file nickname now secret).1 nickname).0 ≡ ok true)
        × ((raw_key : Text)
            → validate_key C
                (revoke_key C (create_key C file nickname now secret).1 nickname).1
                raw_key
              ≡ validate_key C file raw_key)
  unfolding new_key
  revoke_key-create_key law file nickname now secret raw info json done old =
      let (json', free, wrote, left, raw_same, info_same) =
        create_key_ok file nickname now secret raw info done in
      let revoked : revoke_key C (create_key C file nickname now secret).1 nickname
          ≡ (ok true, some json) =
        ap (λ f. revoke_key C f nickname) left
        ∙ revoke_key_found law (existing_keys C file) info nickname json json' free
            (rw info_same (text_eq_refl nickname)) old wrote in
      (
        ap (λ x. x.0) revoked,
        λ raw_key.
            ap (λ x. validate_key C x.1 raw_key) revoked
            ∙ validate_key_lem (some json) raw_key
            ∙ ap (λ keys. is_key_of keys raw_key) (existing_keys-json law _ json old)
            ∙ sym (validate_key_lem file raw_key),
      )
