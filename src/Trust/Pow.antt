-- ===== src/Trust/Pow.antt =====
-- Proof of work against cheap identities (src/trust/pow.rs). Blake3 is a parameter.
pub mod Difficulty
pub mod Mining
use dsearch.Base.{
  ℕ, zero, suc, ◌+◌, ◌/◌, ◌%◌, ◌^◌, ◌≡◌, Bool, true, false, ◌&&◌, Option, none, some, List, [], ◌∷◌,
  ◌++◌, replicate, set, ltb, ◌==◌, if◌then◌else◌, Text, text_eq, not,
}

-- Leading zero bits required.
abbrev pub default_difficulty : ℕ
default_difficulty = 16

-- The number of nonces tried.
unfoldable pub max_nonce : ℕ
max_nonce = 10000000

pub record PowSolution : Type 0 where
  pub nonce : ℕ
  pub difficulty : ℕ
  pub hash : List ℕ

-- `u64::to_le_bytes`
unfoldable pub to_le_bytes : ℕ → ℕ → List ℕ
to_le_bytes zero n = []
to_le_bytes (suc k) n = (n % 256) ∷ to_le_bytes k (n / 256)

-- The loop that clears the first bytes.
unfoldable pub clear_first : ℕ → List ℕ → List ℕ
clear_first zero bs = bs
clear_first (suc n) [] = []
clear_first (suc n) (b ∷ bs) = 0 ∷ clear_first n bs

-- `none` only at 255, the largest `u8`.
unfoldable pub difficulty_to_threshold : ℕ → Option (List ℕ)
unfolding clear_first
difficulty_to_threshold difficulty =
    if difficulty == 255
    then none
    else (let full_bytes = difficulty / 8 in
        let remaining_bits = difficulty % 8 in
        let threshold = clear_first full_bytes (replicate 32 0xff) in
        some (
          if ltb 0 remaining_bits && ltb full_bytes 32
          then set threshold full_bytes (0xff / 2 ^ remaining_bits)
          else threshold))

-- Byte by byte from the left: the first that differs decides.
unfoldable pub meets_difficulty : List ℕ → List ℕ → Bool
meets_difficulty (h ∷ hash) (t ∷ threshold) =
    let rest = meets_difficulty hash threshold in
    if ltb h t then true else if ltb t h then false else rest
meets_difficulty _ _ = true

module _ (blake3 : List ℕ → List ℕ) where
  unfoldable pub hash_pow : List ℕ → ℕ → List ℕ
  unfolding to_le_bytes
  hash_pow input nonce = blake3 (input ++ to_le_bytes 8 nonce)

  -- The loop of `mine_pow`: `rounds` nonces from `nonce` on.
  unfoldable pub mine_from : ℕ → ℕ → List ℕ → ℕ → List ℕ → Option PowSolution
  mine_from zero nonce input difficulty threshold = none
  mine_from (suc rounds) nonce input difficulty threshold =
      let hash = hash_pow input nonce in
      let rest = mine_from rounds (nonce + 1) input difficulty threshold in
      if meets_difficulty hash threshold
      then some (record { nonce = nonce; difficulty = difficulty; hash = hash })
      else rest

  unfoldable pub mine_pow : List ℕ → ℕ → Option PowSolution
  mine_pow input difficulty = elim (difficulty_to_threshold difficulty) [
    | none ↦ none
    | some threshold ↦ mine_from max_nonce 0 input difficulty threshold
  ]

  unfoldable pub verify_pow : List ℕ → PowSolution → Bool
  verify_pow input solution =
      let hash = hash_pow input solution.nonce in
      if not (text_eq hash solution.hash)
      then false
      else elim (difficulty_to_threshold solution.difficulty) [
        | none ↦ false
        | some threshold ↦ meets_difficulty hash threshold
      ]
