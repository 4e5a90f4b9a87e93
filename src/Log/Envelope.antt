-- ===== src/Log/Envelope.antt =====
-- log/entry.go: the canonical bytes of an entry, its hash, its signature and its validation, over
-- the cryptography as a parameter.
use lamdis.Prelude.{
  ℕ, ◌+◌, ◌-◌, ◌*◌, ◌/◌, ◌%◌, String, Bool, true, false, ◌&&◌, ◌||◌, not, Option, none, some, List,
  [], ◌∷◌, leb, ltb, eqb, if◌then◌else◌,
}
use lamdis.Prelude.Eq.{◌==◌, string_eq}
use lamdis.Prelude.Int.{ℤ, pos, negsuc}
use lamdis.Prelude.Text.{codes}
use lamdis.Result.{
  Result, ok, err, check, ◌>>=◌, ◌>>◌, unsupported_version, invalid_id, invalid_thread,
  invalid_kind, invalid_lane, zero_seq, zero_lamport, invalid_prev, malformed_sig,
  unknown_core_kind, bad_on_behalf_of, unsigned, author_mismatch, bad_signature,
}
use lamdis.Log.Base32.{digit_char}
use lamdis.Log.Canonical.{canonical_body}
use lamdis.Log.Crypto.{Crypto}
use lamdis.Log.Encode.{encode_entry}
use lamdis.Log.Entry.{Entry, refs_empty, valid_lane, core_kind}
use lamdis.Log.Identity.{principal_id, public_key, cut_prefix}
use lamdis.Log.Pattern.{is_ulid, is_kind, is_hash, is_sig}

-- hex.EncodeToString
unfoldable pub hex_encode : List ℕ → String
unfolding digit_char
hex_encode [] = ""
hex_encode (b ∷ bs) =
    String.◌∷◌ (digit_char "0123456789abcdef" (b / 16))
      (String.◌∷◌ (digit_char "0123456789abcdef" (b % 16)) (hex_encode bs))

unfoldable pub hex_value : ℕ → Option ℕ
hex_value c =
    if leb 48 c && leb c 57
    then some (c - 48)
    else if leb 97 c && leb c 102
    then some (c - 87)
    else if leb 65 c && leb c 70
    then some (c - 55)
    else none

unfoldable pub add_byte : Option ℕ → Option ℕ → Option (List ℕ) → Option (List ℕ)
add_byte (some h) (some l) (some bs) = some ((h * 16 + l) ∷ bs)
add_byte _ _ _ = none

-- hex.DecodeString, on code points
unfoldable pub hex_decode : List ℕ → Option (List ℕ)
unfolding hex_value add_byte
hex_decode [] = some []
hex_decode (a ∷ []) = none
hex_decode (a ∷ b ∷ cs) = add_byte (hex_value a) (hex_value b) (hex_decode cs)

-- what is encoded: empty references are dropped, and the signature where it is to be signed
abbrev pub prepared : Bool → Entry → Entry
prepared for_signing e = record e {
  refs = if refs_empty e.refs then none else e.refs;
  sig = if for_signing then "" else e.sig;
}

-- canonicalBytes
unfoldable pub canonical_bytes : Bool → Entry → Result String
canonical_bytes for_signing e = do
  body ← canonical_body e.body
  ok (encode_entry (prepared for_signing e) body)

-- strings.HasPrefix(kind, "core.")
unfoldable pub is_reserved : String → Bool
unfolding cut_prefix
is_reserved kind = elim (cut_prefix (codes "core.") (codes kind)) [ none ↦ false | some _ ↦ true ]

unfoldable pub is_version_zero : ℤ → Bool
is_version_zero (pos n) = eqb n 0
is_version_zero (negsuc n) = false

module _ (c : Crypto) where
  -- Hash
  unfoldable pub hash : Entry → Result String
  hash e = do
    check (not (e.sig == "")) unsigned
    b ← canonical_bytes false e
    ok (hex_encode (c.sha256 b))

  -- Sign: the entry with its signature
  unfoldable pub sign_entry : List ℕ → Entry → Result Entry
  sign_entry priv e = do
    pid ← principal_id (c.public priv)
    check (e.author == pid) author_mismatch
    msg ← canonical_bytes true e
    ok (record e { sig = hex_encode (c.sign priv msg) })

  -- the switch at the head of Validate
  unfoldable pub check_shape : Entry → Result (Unit {0})
  check_shape e = do
    check (is_version_zero e.v) unsupported_version
    check (is_ulid e.id) invalid_id
    check (is_ulid e.thread) invalid_thread
    check (is_kind e.kind) invalid_kind
    check (valid_lane e.lane) invalid_lane
    check (not (ltb e.seq 1)) zero_seq
    check (not (ltb e.lamport 1)) zero_lamport
    check (is_hash e.prev) invalid_prev
    check (not (e.sig == "" || not (is_sig e.sig))) malformed_sig
    check (not (is_reserved e.kind && not (core_kind e.kind))) unknown_core_kind

  -- the person an entry stands for must be a principal
  unfoldable pub check_behalf : Entry → Result (Unit {0})
  check_behalf e =
      if e.on_behalf_of == ""
      then ok tt
      else elim (public_key e.on_behalf_of) [ ok _ ↦ ok tt | err _ ↦ err bad_on_behalf_of ]

  unfoldable pub verified : List ℕ → String → Option (List ℕ) → Bool
  verified key msg none = false
  verified key msg (some sig) = c.verify key msg sig

  -- Validate
  unfoldable pub validate : Entry → Result (Unit {0})
  validate e = do
    check_shape e
    key ← public_key e.author
    check_behalf e
    msg ← canonical_bytes true e
    check (verified key msg (hex_decode (codes e.sig))) bad_signature
