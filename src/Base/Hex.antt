-- ===== src/Base/Hex.antt =====
-- Hexadecimal and decimal digits.
use Prim.Native.Nat.{ℕ, zero, suc, ◌+◌, ◌-◌, ◌*◌, ◌/◌, ◌%◌, ◌<◌}
use mathlib.Core.Bool.{◌&&◌}
use mathlib.Core.List.{List, [], ◌∷◌}
use mathlib.Core.Option.{Option, none, some}
use mathlib.Core.Path.{◌≡◌, refl}
use native.Mathlib.Omega.{arith}
use dsearch.Base.Lists.{All}
use dsearch.Base.Tests.{ltb, leb, ◌==◌, if◌then◌else◌}
use dsearch.Base.Texts.{Text, as_bytes, encode_char}

unfoldable pub hex_digit : ℕ → Option ℕ
hex_digit c =
    if leb 48 c && leb c 57
    then some (c - 48)
    else if leb 97 c && leb c 102
    then some (c - 87)
    else if leb 65 c && leb c 70
    then some (c - 55)
    else none

abbrev pub two_digits : Option ℕ → Option ℕ → Option ℕ
two_digits (some high) (some low) = some (high * 16 + low)
two_digits _ _ = none

-- `u8::from_str_radix(s, 16)` at two bytes, which allows a plus sign (43) before a digit. Two bytes
-- that are not whole characters, or are no digits, give nothing either way.
unfoldable pub hex_pair : ℕ → ℕ → Option ℕ
unfolding hex_digit
hex_pair a b = if a == 43 then hex_digit b else two_digits (hex_digit a) (hex_digit b)

abbrev pub to_hex_digit : ℕ → ℕ
to_hex_digit n = if ltb n 10 then 48 + n else 87 + n

-- `format!("{:02x}", b)` for each byte, one after the other.
unfoldable pub to_hex : List ℕ → Text
to_hex [] = []
to_hex (b ∷ bs) = to_hex_digit (b / 16) ∷ to_hex_digit (b % 16) ∷ to_hex bs

pub hex_pair-to_hex :
    (b : ℕ) → b < 256 → hex_pair (to_hex_digit (b / 16)) (to_hex_digit (b % 16)) ≡ some b
unfolding hex_pair
hex_pair-to_hex b h = ground arith

encode_char_ascii : (c : ℕ) → c < 128 → encode_char c ≡ c ∷ []
unfolding encode_char
encode_char_ascii c h = ground arith

-- Hexadecimal text is its own encoding.
pub as_bytes-to_hex : (bs : List ℕ) → All (λ b. b < 256) bs → as_bytes (to_hex bs) ≡ to_hex bs
unfolding as_bytes to_hex
as_bytes-to_hex [] h = refl
as_bytes-to_hex (b ∷ bs) (lt, h) =
    rw
      (
        encode_char_ascii (to_hex_digit (b / 16)) (ground arith),
        encode_char_ascii (to_hex_digit (b % 16)) (ground arith),
        as_bytes-to_hex bs h,
      )
      refl

unfoldable pub digits_from : ℕ → ℕ → Text → Text
digits_from zero n s = s
digits_from (suc fuel) n s =
    let more = digits_from fuel (n / 10) ((48 + n % 10) ∷ s) in
    if n / 10 == 0 then (48 + n % 10) ∷ s else more

-- `to_string` of a `u64`, which has at most 20 digits.
unfoldable pub decimal : ℕ → Text
decimal n = digits_from 20 n []
