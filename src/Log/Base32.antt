-- ===== src/Log/Base32.antt =====
-- encoding/base32 with the Crockford alphabet and no padding, as log/identity.go uses it: five
-- bytes are eight digits, and a shorter last group keeps the digits that its bits need.
use Prim.Native.Char.{Char, nul}
use lamdis.Prelude.{
  ℕ, zero, suc, ◌+◌, ◌*◌, ◌/◌, ◌%◌, String, ◌||◌, Option, none, some, List, [], ◌∷◌, ◌++◌, not, eqb,
  if◌then◌else◌,
}
use lamdis.Prelude.Lists.{keep}
use lamdis.Prelude.Text.{codes}

abbrev pub alphabet : String
alphabet = "0123456789ABCDEFGHJKMNPQRSTVWXYZ"

-- the character of a digit
unfoldable pub digit_char : String → ℕ → Char
digit_char String.[] n = nul
digit_char (String.◌∷◌ c s) zero = c
digit_char (String.◌∷◌ c s) (suc n) = digit_char s n

unfoldable pub digits_text : List ℕ → String
unfolding digit_char
digits_text [] = ""
digits_text (d ∷ ds) = String.◌∷◌ (digit_char alphabet d) (digits_text ds)

-- the decode map: the place of a code in the alphabet
unfoldable pub digit_of : List ℕ → ℕ → Option ℕ
digit_of [] c = none
digit_of (a ∷ cs) c =
    let rest = digit_of cs c in
    if eqb a c then some 0 else elim rest [ none ↦ none | some d ↦ some (suc d) ]

-- eight digits of one group
abbrev pub group : ℕ → ℕ → ℕ → ℕ → ℕ → List ℕ
group a b c d e =
    a / 8
    ∷ ((a % 8) * 4 + b / 64)
    ∷ ((b / 2) % 32)
    ∷ ((b % 2) * 16 + c / 16)
    ∷ ((c % 16) * 2 + d / 128)
    ∷ ((d / 4) % 32)
    ∷ ((d % 4) * 8 + e / 32)
    ∷ (e % 32)
    ∷ []

unfoldable pub encode_digits : List ℕ → List ℕ
encode_digits (a ∷ b ∷ c ∷ d ∷ e ∷ bytes) = group a b c d e ++ encode_digits bytes
encode_digits (a ∷ b ∷ c ∷ d ∷ []) =
    a / 8
    ∷ ((a % 8) * 4 + b / 64)
    ∷ ((b / 2) % 32)
    ∷ ((b % 2) * 16 + c / 16)
    ∷ ((c % 16) * 2 + d / 128)
    ∷ ((d / 4) % 32)
    ∷ ((d % 4) * 8)
    ∷ []
encode_digits (a ∷ b ∷ c ∷ []) =
    a / 8 ∷ ((a % 8) * 4 + b / 64) ∷ ((b / 2) % 32) ∷ ((b % 2) * 16 + c / 16) ∷ ((c % 16) * 2) ∷ []
encode_digits (a ∷ b ∷ []) = a / 8 ∷ ((a % 8) * 4 + b / 64) ∷ ((b / 2) % 32) ∷ ((b % 2) * 16) ∷ []
encode_digits (a ∷ []) = a / 8 ∷ ((a % 8) * 4) ∷ []
encode_digits [] = []

-- the bytes of eight digits, each cut to a byte
abbrev pub byte0 : ℕ → ℕ → ℕ
byte0 a b = (a * 8 + b / 4) % 256

abbrev pub byte1 : ℕ → ℕ → ℕ → ℕ
byte1 b c d = ((b % 4) * 64 + c * 2 + d / 16) % 256

abbrev pub byte2 : ℕ → ℕ → ℕ
byte2 d e = ((d % 16) * 16 + e / 2) % 256

abbrev pub byte3 : ℕ → ℕ → ℕ → ℕ
byte3 e f g = ((e % 2) * 128 + f * 4 + g / 8) % 256

abbrev pub byte4 : ℕ → ℕ → ℕ
byte4 g h = ((g % 8) * 32 + h) % 256

-- A last group of one, three or six digits writes what its whole bytes are, or nothing.
unfoldable pub decode_digits : List ℕ → List ℕ
decode_digits (a ∷ b ∷ c ∷ d ∷ e ∷ f ∷ g ∷ h ∷ digits) =
    byte0 a b ∷ byte1 b c d ∷ byte2 d e ∷ byte3 e f g ∷ byte4 g h ∷ decode_digits digits
decode_digits (a ∷ b ∷ c ∷ d ∷ e ∷ f ∷ g ∷ []) =
    byte0 a b ∷ byte1 b c d ∷ byte2 d e ∷ byte3 e f g ∷ []
decode_digits (a ∷ b ∷ c ∷ d ∷ e ∷ []) = byte0 a b ∷ byte1 b c d ∷ byte2 d e ∷ []
decode_digits (a ∷ b ∷ c ∷ d ∷ []) = byte0 a b ∷ byte1 b c d ∷ []
decode_digits (a ∷ b ∷ []) = byte0 a b ∷ []
decode_digits _ = []

unfoldable pub digits_of : List ℕ → Option (List ℕ)
unfolding digit_of
digits_of [] = some []
digits_of (c ∷ cs) =
    let rest = digits_of cs in
    elim (digit_of (codes alphabet) c) [
      | none ↦ none
      | some d ↦ elim rest [ none ↦ none | some ds ↦ some (d ∷ ds) ]
    ]

-- EncodeToString
unfoldable pub encode : List ℕ → String
unfolding digits_text encode_digits
encode bytes = digits_text (encode_digits bytes)

-- DecodeString: line breaks are skipped, any other code outside the alphabet is an error.
unfoldable pub decode : List ℕ → Option (List ℕ)
unfolding keep digits_of decode_digits
decode cs = elim (digits_of (keep (λ c. not (eqb c 10 || eqb c 13)) cs)) [
  | none ↦ none
  | some ds ↦ some (decode_digits ds)
]
