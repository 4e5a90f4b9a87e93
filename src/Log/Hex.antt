-- ===== src/Log/Hex.antt =====
-- Hexadecimal text: what is encoded is decoded again, and it is lower-case digits, two for a byte.
use Prim.Native.Char.{code}
use lamdis.Prelude.{ℕ, ◌*◌, ◌/◌, ◌%◌, ◌<◌, ◌≡◌, refl, true, ◌&&◌, List, [], ◌∷◌, some, arith}
use lamdis.Prelude.Lists.{All, length}
use lamdis.Prelude.Ranges.{holds_below, holds_below-lt, gives, gives-some}
use lamdis.Prelude.Text.{codes}
use lamdis.Log.Base32.{digit_char}
use lamdis.Log.Envelope.{hex_encode, hex_decode, hex_value, add_byte}
use lamdis.Log.Pattern.{every, hex_code}

-- the code of a digit
abbrev hex_digit : ℕ → ℕ
hex_digit n = code (digit_char "0123456789abcdef" n)

digits_read :
    holds_below 16 (λ n. gives (hex_value (hex_digit n)) n && hex_code (hex_digit n)) ≡ true
unfolding holds_below digit_char hex_value hex_code
digits_read = refl

module _ (n : ℕ) (l : n < 16) where
  both : (gives (hex_value (hex_digit n)) n && hex_code (hex_digit n)) ≡ true
  both =
      holds_below-lt 16 (λ k. gives (hex_value (hex_digit k)) k && hex_code (hex_digit k)) n
        digits_read l

  hex_value-hex_digit : hex_value (hex_digit n) ≡ some n
  hex_value-hex_digit = gives-some (hex_value (hex_digit n)) n (ground (arith, both))

  hex_code-hex_digit : hex_code (hex_digit n) ≡ true
  hex_code-hex_digit = ground (arith, both)

-- The decoding of hex text gives back the bytes that were encoded.
pub hex_decode-hex_encode :
    (bytes : List ℕ) → All (λ b. b < 256) bytes → hex_decode (codes (hex_encode bytes)) ≡ some bytes
unfolding hex_decode hex_encode add_byte
hex_decode-hex_encode [] h = refl
hex_decode-hex_encode (b ∷ bs) h = ground (
  arith,
  h.0,
  hex_value-hex_digit (b / 16) (omega (arith, h.0)),
  hex_value-hex_digit (b % 16) (omega arith),
  hex_decode-hex_encode bs h.1,
)

pub length-hex_encode : (bytes : List ℕ) → length (codes (hex_encode bytes)) ≡ 2 * length bytes
unfolding hex_encode
length-hex_encode [] = refl
length-hex_encode (b ∷ bs) = omega (arith, length-hex_encode bs)

pub every-hex_encode :
    (bytes : List ℕ) → All (λ b. b < 256) bytes → every hex_code (codes (hex_encode bytes)) ≡ true
unfolding every hex_encode
every-hex_encode [] h = refl
every-hex_encode (b ∷ bs) h = ground (
  arith,
  hex_code-hex_digit (b / 16) (omega (arith, h.0)),
  hex_code-hex_digit (b % 16) (omega arith),
  every-hex_encode bs h.1,
)
