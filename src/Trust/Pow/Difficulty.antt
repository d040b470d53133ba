-- ===== src/Trust/Pow/Difficulty.antt =====
-- The threshold of a difficulty, read as a number (src/trust/pow.rs).
use dsearch.Base.{
  ℕ, zero, suc, ◌+◌, ◌-◌, ◌*◌, ◌^◌, ◌<◌, ◌≡◌, refl, ◌↔◌, Bool, true, false, ◌&&◌, Option, none,
  some, List, [], ◌∷◌, length, All, leb, ◌==◌, arith, ltb, leb→le, le→leb, Option-cases, sym, ◌∙◌,
  inl, inr, eqb→eq,
}
use native.Mathlib.Nat.{pow-suc, mul-le-mul_right}
use mathlib.Core.Bool.{false≢true}
use native.Mathlib.Decide.{ℕ_discrete}
use dsearch.Trust.Pow.{difficulty_to_threshold, meets_difficulty}

-- A hash as a number, its first byte the most significant.
unfoldable pub value : List ℕ → ℕ
value [] = 0
value (b ∷ bs) = b * 256 ^ length bs + value bs

abbrev pub IsBytes : List ℕ → Type 0
IsBytes = All (λ b. b < 256)

pub value-lt : (bs : List ℕ) → IsBytes bs → value bs < 256 ^ length bs
unfolding value
value-lt [] h = omega arith
value-lt (b ∷ bs) (hb, h) = omega (
  arith,
  pow-suc 256 (length bs),
  mul-le-mul_right {m = b} {n = 255} (256 ^ length bs) (omega arith),
  value-lt bs h,
)

-- The first byte decides, whatever stands behind it.
first_byte : (x y a b p : ℕ) → x < y → a < p → x * p + a < y * p + b
first_byte x y a b p h k = omega (arith, mul-le-mul_right {m = x + 1} {n = y} p (omega arith))

-- Byte by byte comparison is comparison of the numbers.
pub meets_difficulty-leb :
    (hash threshold : List ℕ)
    → length hash ≡ length threshold
    → IsBytes hash
    → IsBytes threshold
    → meets_difficulty hash threshold ≡ leb (value hash) (value threshold)
unfolding meets_difficulty value
meets_difficulty-leb [] [] e h t = refl
meets_difficulty-leb [] (x ∷ xs) e h t = absurd (omega arith)
meets_difficulty-leb (x ∷ xs) [] e h t = absurd (omega arith)
meets_difficulty-leb (x ∷ xs) (y ∷ ys) e (hx, h) (hy, t) =
    let p : length xs ≡ length ys = omega arith in
    rw p (
      ground (
        arith,
        meets_difficulty-leb xs ys p h t,
        first_byte x y (value xs) (value ys) (256 ^ length ys),
        first_byte y x (value ys) (value xs) (256 ^ length ys),
        value-lt xs h,
        value-lt ys t,
      ))

-- What is said of each threshold, as a test: 32 bytes, and the largest number with that many
-- leading zero bits.
all_bytes : List ℕ → Bool
all_bytes [] = true
all_bytes (b ∷ bs) = ltb b 256 && all_bytes bs

fits : ℕ → Option (List ℕ) → Bool
fits d none = false
fits d (some t) = (length t == 32) && (all_bytes t && (value t + 1 == 2 ^ (256 - d)))

fits_below : ℕ → Bool
fits_below zero = true
fits_below (suc d) = fits d (difficulty_to_threshold d) && fits_below d

fits_below_sound :
    (n d : ℕ) → fits_below n ≡ true → d < n → fits d (difficulty_to_threshold d) ≡ true
unfolding fits_below
fits_below_sound zero d h lt = absurd (omega arith)
fits_below_sound (suc n) d h lt = elim (ℕ_discrete d n) [
  | yes e ↦ rw e (ground arith)
  | no ne ↦ fits_below_sound n d (ground arith) (omega arith)
]

threshold_table : fits_below 255 ≡ true
unfolding fits_below fits difficulty_to_threshold all_bytes value
threshold_table = refl

all_bytes-IsBytes : (bs : List ℕ) → all_bytes bs ≡ true → IsBytes bs
unfolding all_bytes
all_bytes-IsBytes [] h = tt
all_bytes-IsBytes (b ∷ bs) h = (ground arith, all_bytes-IsBytes bs (ground arith))

pub record IsThreshold (d : ℕ) (t : List ℕ) : Type 0 where
  pub size : length t ≡ 32
  pub bytes : IsBytes t
  pub largest : value t + 1 ≡ 2 ^ (256 - d)

fits-IsThreshold : (d : ℕ) (t : List ℕ) → fits d (some t) ≡ true → IsThreshold d t
unfolding fits
fits-IsThreshold d t h = record {
  size = ground arith;
  bytes = all_bytes-IsBytes t (ground arith);
  largest = eqb→eq _ _ (ground arith);
}

pub difficulty_to_threshold-IsThreshold :
    (d : ℕ) (t : List ℕ) → d < 255 → difficulty_to_threshold d ≡ some t → IsThreshold d t
difficulty_to_threshold-IsThreshold d t h e =
    fits-IsThreshold d t (rw e at (fits_below_sound 255 d threshold_table h))

-- Every difficulty below 255 has a threshold.
pub threshold_exists : (d : ℕ) → d < 255 → (t : List ℕ) × (difficulty_to_threshold d ≡ some t)
unfolding fits
threshold_exists d h = elim (Option-cases (difficulty_to_threshold d)) [
  | inl e ↦ absurd (false≢true (rw e at (fits_below_sound 255 d threshold_table h)))
  | inr (t, e) ↦ (t, e)
]

-- A 32-byte hash meets the threshold of a difficulty below 255 exactly when, as a big-endian
-- number, it is less than 2 ^ (256 - difficulty): its first `difficulty` bits are zero.
pub meets_difficulty_iff :
    (d : ℕ) (hash t : List ℕ)
    → d < 255
    → difficulty_to_threshold d ≡ some t
    → length hash ≡ 32
    → IsBytes hash
    → (meets_difficulty hash t ≡ true) ↔ (value hash < 2 ^ (256 - d))
meets_difficulty_iff d hash t h e size bytes =
    let w = difficulty_to_threshold-IsThreshold d t h e in
    rw (meets_difficulty-leb hash t (size ∙ sym w.size) bytes w.bytes) (
      (λ p. omega (arith, w.largest, leb→le (value hash) (value t) p)),
      (λ p. le→leb (value hash) (value t) (omega (arith, w.largest))),
    )
