-- ===== src/Trust/Pow/Mining.antt =====
-- Mining and verification (src/trust/pow.rs).
use dsearch.Base.{
  ℕ, zero, suc, ◌+◌, ◌-◌, ◌^◌, ◌≤◌, ◌<◌, ◌≡◌, refl, ◌↔◌, true, false, none, some, List, length,
  arith, is_some, Bool-cases, Option-cases, inl, inr, sym, ◌∙◌, text_eq_iff,
}
use mathlib.Core.Bool.{false≢true}
use native.Mathlib.Decide.{ℕ_discrete}
use dsearch.Trust.Pow.{
  PowSolution, max_nonce, difficulty_to_threshold, meets_difficulty, hash_pow, mine_from, mine_pow,
  verify_pow,
}
use dsearch.Trust.Pow.Difficulty.{value, IsBytes, threshold_exists, meets_difficulty_iff}

-- What the program relies on of Blake3: a digest is 32 bytes.
pub record IsDigest (blake3 : List ℕ → List ℕ) : Type 0 where
  pub size : (bs : List ℕ) → length (blake3 bs) ≡ 32
  pub bytes : (bs : List ℕ) → IsBytes (blake3 bs)

not_lt : (a b : ℕ) → ¬ (a < b) → b ≤ a
not_lt a b h = omega arith

module _ (blake3 : List ℕ → List ℕ) (input : List ℕ) where
  -- The first nonce in a range whose hash meets the threshold.
  pub record IsFirst (nonce rounds difficulty : ℕ) (threshold : List ℕ) (s : PowSolution)
      : Type 0 where
    pub from : nonce ≤ s.nonce
    pub below : s.nonce < nonce + rounds
    pub claimed : s.difficulty ≡ difficulty
    pub hashed : s.hash ≡ hash_pow blake3 input s.nonce
    pub meets : meets_difficulty s.hash threshold ≡ true
    pub first :
        (k : ℕ)
        → nonce ≤ k
        → k < s.nonce
        → meets_difficulty (hash_pow blake3 input k) threshold ≡ false

  mine_from-IsFirst :
      (rounds nonce difficulty : ℕ) (threshold : List ℕ) (s : PowSolution)
      → mine_from blake3 rounds nonce input difficulty threshold ≡ some s
      → IsFirst nonce rounds difficulty threshold s
  unfolding mine_from
  mine_from-IsFirst zero n d t s h = absurd (ground arith)
  mine_from-IsFirst (suc r) n d t s h =
      elim (Bool-cases (meets_difficulty (hash_pow blake3 input n) t)) [
        | inl m ↦ record {
          from = ground arith;
          below = ground arith;
          claimed = ground arith;
          hashed = ground arith;
          meets = ground arith;
          first = λ k p q. absurd (ground arith);
        }
        | inr m ↦
            (let w = mine_from-IsFirst r (n + 1) d t s (ground arith) in
              record {
                from = omega (arith, w.from);
                below = omega (arith, w.below);
                claimed = w.claimed;
                hashed = w.hashed;
                meets = w.meets;
                first = λ k p q. elim (ℕ_discrete k n) [
                  | yes e ↦ rw e m
                  | no ne ↦ w.first k (omega arith) q
                ];
              })
      ]

  mine_from-none :
      (rounds nonce difficulty : ℕ) (threshold : List ℕ) (k : ℕ)
      → mine_from blake3 rounds nonce input difficulty threshold ≡ none
      → nonce ≤ k
      → k < nonce + rounds
      → meets_difficulty (hash_pow blake3 input k) threshold ≡ false
  unfolding mine_from
  mine_from-none zero n d t k h from below = absurd (omega arith)
  mine_from-none (suc r) n d t k h from below = elim (ℕ_discrete k n) [
    | yes e ↦ rw e (ground arith)
    | no ne ↦ mine_from-none r (n + 1) d t k (ground arith) (omega arith) (omega arith)
  ]

  hash_pow-IsDigest :
      IsDigest blake3
      → (n : ℕ) → (length (hash_pow blake3 input n) ≡ 32) × IsBytes (hash_pow blake3 input n)
  unfolding hash_pow
  hash_pow-IsDigest law n = (law.size _, law.bytes _)

  threshold-255 : difficulty_to_threshold 255 ≡ none
  unfolding difficulty_to_threshold
  threshold-255 = refl

  has_threshold : (d : ℕ) (t : List ℕ) → d < 256 → difficulty_to_threshold d ≡ some t → d < 255
  has_threshold d t u8 e = elim (ℕ_discrete d 255) [
    | yes p ↦ absurd (cc (threshold-255, p))
    | no ne ↦ omega arith
  ]

  verify_pow-some :
      (s : PowSolution) (t : List ℕ)
      → difficulty_to_threshold s.difficulty ≡ some t
      → (verify_pow blake3 input s ≡ true) ↔ (
          (hash_pow blake3 input s.nonce ≡ s.hash)
          × (meets_difficulty (hash_pow blake3 input s.nonce) t ≡ true))
  unfolding verify_pow
  verify_pow-some s t e = (
    λ h. (ground (arith, text_eq_iff (hash_pow blake3 input s.nonce) s.hash), ground arith),
    λ h. ground (arith, text_eq_iff (hash_pow blake3 input s.nonce) s.hash),
  )

  -- A solution is accepted exactly when its hash is the hash of the input and its nonce, its
  -- claimed difficulty is below 255, and the hash starts with that many zero bits. A difficulty
  -- is a `u8`.
  pub verify_pow_iff :
      IsDigest blake3
      → (s : PowSolution) → s.difficulty < 256
      → (verify_pow blake3 input s ≡ true) ↔ (
          (hash_pow blake3 input s.nonce ≡ s.hash)
          × (s.difficulty < 255)
          × (value s.hash < 2 ^ (256 - s.difficulty)))
  verify_pow_iff law s u8 = (
    (λ h. elim (Option-cases (difficulty_to_threshold s.difficulty)) [
      | inl e ↦ absurd (unfold verify_pow in ground arith)
      | inr (t, e) ↦
          let p = has_threshold s.difficulty t u8 e in
          let (same, meets) = (verify_pow-some s t e).0 h in
          (same, p, rw (← same) ((meets_iff t p e).0 meets))
    ]),
    (λ h.
        let (t, e) = threshold_exists s.difficulty h.1 in
        (verify_pow-some s t e).1 (h.0, (meets_iff t h.1 e).1 (rw h.0 h.2))),
  )
    where
      meets_iff :
          (t : List ℕ)
          → s.difficulty < 255
          → difficulty_to_threshold s.difficulty ≡ some t
          → (meets_difficulty (hash_pow blake3 input s.nonce) t ≡ true)
            ↔ (value (hash_pow blake3 input s.nonce) < 2 ^ (256 - s.difficulty))
      meets_iff t p e =
          let w = hash_pow-IsDigest law s.nonce in
          meets_difficulty_iff s.difficulty (hash_pow blake3 input s.nonce) t p e w.0 w.1

  -- What is mined verifies, has the difficulty asked for and a nonce below the limit, and is the
  -- first: no smaller nonce has a hash with that many leading zero bits.
  pub mine_pow-verify_pow :
      IsDigest blake3
      → (difficulty : ℕ) (s : PowSolution) → difficulty < 256
      → mine_pow blake3 input difficulty ≡ some s
      → (verify_pow blake3 input s ≡ true)
        × (s.difficulty ≡ difficulty)
        × (s.nonce < max_nonce)
        × ((k : ℕ) → k < s.nonce → 2 ^ (256 - difficulty) ≤ value (hash_pow blake3 input k))
  unfolding mine_pow
  mine_pow-verify_pow law d s u8 h = elim (Option-cases (difficulty_to_threshold d)) [
    | inl e ↦ absurd (ground arith)
    | inr (t, e) ↦
        let w = mine_from-IsFirst max_nonce 0 d t s (ground arith) in
        (
          (verify_pow-some s t (rw w.claimed e)).1 (sym w.hashed, rw (← w.hashed) w.meets),
          w.claimed,
          omega (arith, w.below),
          λ k lt. too_big t e k (w.first k (omega arith) lt),
        )
  ]
    where
      too_big :
          (t : List ℕ)
          → difficulty_to_threshold d ≡ some t
          → (k : ℕ) → meets_difficulty (hash_pow blake3 input k) t ≡ false
          → 2 ^ (256 - d) ≤ value (hash_pow blake3 input k)
      too_big t e k h =
          let w = hash_pow-IsDigest law k in
          let iff =
            meets_difficulty_iff d (hash_pow blake3 input k) t (has_threshold d t u8 e) e w.0 w.1 in
          not_lt _ _ (λ lt. false≢true (sym h ∙ iff.1 lt))

  -- Mining succeeds when some nonce below the limit has a hash with that many leading zero bits.
  pub mine_pow_total :
      IsDigest blake3
      → (difficulty k : ℕ) → difficulty < 255
      → k < max_nonce
      → value (hash_pow blake3 input k) < 2 ^ (256 - difficulty)
      → is_some (mine_pow blake3 input difficulty) ≡ true
  unfolding mine_pow
  mine_pow_total law d k h below small =
      let (t, e) = threshold_exists d h in
      let w = hash_pow-IsDigest law k in
      let iff = meets_difficulty_iff d (hash_pow blake3 input k) t h e w.0 w.1 in
      rw (e, mine_pow)
        (elim (Option-cases (mine_from blake3 max_nonce 0 input d t)) [
          | inl none_found ↦ absurd (
              false≢true (
                sym (mine_from-none max_nonce 0 d t k none_found (omega arith) (omega arith))
                ∙ iff.1 small))
          | inr (s, found) ↦ rw found
        ])
