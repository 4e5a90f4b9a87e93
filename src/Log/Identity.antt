-- ===== src/Log/Identity.antt =====
-- log/identity.go: principal ids, "ed25519:" and the base32 of a 32-byte key.
use Prim.Native.String.{◌++◌}
use lamdis.Prelude.{
  ℕ, ◌-◌, String, ◌&&◌, Option, none, some, List, [], ◌∷◌, map, leb, eqb, if◌then◌else◌,
}
use lamdis.Prelude.Lists.{length}
use lamdis.Prelude.Text.{codes}
use lamdis.Result.{Result, ok, err, missing_prefix, bad_encoding, bad_length}
use lamdis.Log.Base32.{encode, decode}

abbrev pub principal_prefix : String
principal_prefix = "ed25519:"

-- strings.CutPrefix, on code points
unfoldable pub cut_prefix : List ℕ → List ℕ → Option (List ℕ)
cut_prefix [] s = some s
cut_prefix (p ∷ ps) [] = none
cut_prefix (p ∷ ps) (c ∷ cs) = let rest = cut_prefix ps cs in if eqb p c then rest else none

-- strings.ToUpper, as far as the alphabet can tell: ASCII letters, and the two other code points
-- whose upper case is ASCII (dotless i and long s).
unfoldable pub to_upper : ℕ → ℕ
to_upper c =
    if leb 97 c && leb c 122
    then c - 32
    else if eqb c 0x131
    then 73
    else if eqb c 0x17f
    then 83
    else c

-- PrincipalID
unfoldable pub principal_id : List ℕ → Result String
unfolding encode
principal_id key =
    if eqb (length key) 32 then ok (principal_prefix ++ encode key) else err bad_length

unfoldable pub decode_key : Option (List ℕ) → Result (List ℕ)
decode_key none = err bad_encoding
decode_key (some raw) = if eqb (length raw) 32 then ok raw else err bad_length

unfoldable pub key_of_rest : Option (List ℕ) → Result (List ℕ)
unfolding decode_key decode to_upper
key_of_rest none = err missing_prefix
key_of_rest (some enc) = decode_key (decode (map to_upper enc))

-- PublicKey
unfoldable pub public_key : String → Result (List ℕ)
unfolding key_of_rest cut_prefix
public_key pid = key_of_rest (cut_prefix (codes principal_prefix) (codes pid))
