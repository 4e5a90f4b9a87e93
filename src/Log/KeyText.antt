-- ===== src/Log/KeyText.antt =====
-- Principal ids: a key's text gives the key back.
use Prim.Native.Char.{code}
use Prim.Native.String.{◌++◌ as append}
use lamdis.Prelude.{
  ℕ, ◌<◌, ◌≡◌, refl, Bool, true, ◌&&◌, ◌||◌, not, List, [], ◌∷◌, ◌++◌, some, map, arith, eqb,
  String,
}
use lamdis.Prelude.Lists.{All, length, keep}
use lamdis.Prelude.Ranges.{holds_below, holds_below-lt, gives, gives-some}
use lamdis.Prelude.Text.{codes, codes-append}
use lamdis.Result.{ok}
use lamdis.Log.Base32.{
  alphabet, digit_char, digit_of, digits_of, digits_text, encode_digits, decode_digits, encode,
  decode,
}
use lamdis.Log.Identity.{
  principal_prefix, principal_id, public_key, to_upper, cut_prefix, key_of_rest, decode_key,
}

abbrev digit : ℕ → ℕ
digit n = code (digit_char alphabet n)

-- what DecodeString keeps
abbrev is_text : ℕ → Bool
is_text c = not (eqb c 10 || eqb c 13)

digits_read :
    holds_below 32 (λ n.
      gives (digit_of (codes alphabet) (to_upper (digit n))) n && is_text (to_upper (digit n)))
    ≡ true
unfolding holds_below digit_char digit_of to_upper
digits_read = refl

module _ (n : ℕ) (l : n < 32) where
  both :
      (gives (digit_of (codes alphabet) (to_upper (digit n))) n && is_text (to_upper (digit n)))
      ≡ true
  both =
      holds_below-lt 32
        (λ k.
          gives (digit_of (codes alphabet) (to_upper (digit k))) k && is_text (to_upper (digit k)))
        n digits_read l

  digit_of-digit : digit_of (codes alphabet) (to_upper (digit n)) ≡ some n
  digit_of-digit = gives-some _ n (ground (arith, both))

  is_text-digit : is_text (to_upper (digit n)) ≡ true
  is_text-digit = ground (arith, both)

digits_of-digits_text :
    (ds : List ℕ)
    → All (λ d. d < 32) ds
    → digits_of (keep is_text (map to_upper (codes (digits_text ds)))) ≡ some ds
unfolding digits_of keep digits_text
digits_of-digits_text [] h = refl
digits_of-digits_text (d ∷ ds) h =
    rw (keep, is_text-digit d h.0)
      (rw (digits_of, digit_of-digit d h.0) (rw (digits_of-digits_text ds h.1) refl))

encode_digits-All :
    (bytes : List ℕ) → All (λ b. b < 256) bytes → All (λ d. d < 32) (encode_digits bytes)
unfolding encode_digits
encode_digits-All (a ∷ b ∷ c ∷ d ∷ e ∷ bytes) h = (
  omega arith,
  (
    omega arith,
    (
      omega arith,
      (
        omega arith,
        (
          omega arith,
          (omega arith, (omega arith, (omega arith, encode_digits-All bytes h.1.1.1.1.1))),
        ),
      ),
    ),
  ),
)
encode_digits-All (a ∷ b ∷ c ∷ d ∷ []) h = omega arith
encode_digits-All (a ∷ b ∷ c ∷ []) h = omega arith
encode_digits-All (a ∷ b ∷ []) h = omega arith
encode_digits-All (a ∷ []) h = omega arith
encode_digits-All [] h = tt

decode_digits-encode_digits :
    (bytes : List ℕ) → All (λ b. b < 256) bytes → decode_digits (encode_digits bytes) ≡ bytes
unfolding encode_digits decode_digits
decode_digits-encode_digits (a ∷ b ∷ c ∷ d ∷ e ∷ bytes) h =
    ground (arith, decode_digits-encode_digits bytes h.1.1.1.1.1)
decode_digits-encode_digits (a ∷ b ∷ c ∷ d ∷ []) h = ground arith
decode_digits-encode_digits (a ∷ b ∷ c ∷ []) h = ground arith
decode_digits-encode_digits (a ∷ b ∷ []) h = ground arith
decode_digits-encode_digits (a ∷ []) h = ground arith
decode_digits-encode_digits [] h = refl

decode-encode :
    (bytes : List ℕ)
    → All (λ b. b < 256) bytes
    → decode (map to_upper (codes (encode bytes))) ≡ some bytes
unfolding decode encode
decode-encode bytes h =
    rw (decode, digits_of-digits_text (encode_digits bytes) (encode_digits-All bytes h))
      (rw (decode_digits-encode_digits bytes h) refl)

cut_prefix-append : (ps cs : List ℕ) → cut_prefix ps (ps ++ cs) ≡ some cs
unfolding cut_prefix
cut_prefix-append [] cs = refl
cut_prefix-append (p ∷ ps) cs = ground (arith, cut_prefix-append ps cs)

cut_prefix-prefix :
    (s : String)
    → cut_prefix (codes principal_prefix) (codes (append principal_prefix s)) ≡ some (codes s)
cut_prefix-prefix s =
    rw (codes-append principal_prefix s) (cut_prefix-append (codes principal_prefix) (codes s))

-- PrincipalID of a key of 32 bytes succeeds, and PublicKey reads the key back from the text.
pub public_key-principal_id :
    (key : List ℕ)
    → length key ≡ 32
    → All (λ b. b < 256) key
    → (principal_id key ≡ ok (append principal_prefix (encode key)))
      × (public_key (append principal_prefix (encode key)) ≡ ok key)
unfolding principal_id public_key key_of_rest decode_key
public_key-principal_id key size bytes = (
  rw size refl,
  rw (cut_prefix-prefix (encode key)) (rw (decode-encode key bytes) (rw size refl)),
)
