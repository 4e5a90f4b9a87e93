-- ===== src/Log/Signed.antt =====
-- What Sign signs passes Validate.
use lamdis.Prelude.{
  ℕ, ◌≤◌, String, ◌≡◌, refl, sym, ◌∙◌, subst, true, false, ◌&&◌, not, List, arith, ◌≢◌,
}
use lamdis.Prelude.Eq.{◌==◌, string_eq}
use lamdis.Prelude.Lists.{length}
use lamdis.Prelude.Text.{codes}
use lamdis.Result.{ok, >>=-eq-ok, check-eq-ok, ok-injective, author_mismatch}
use lamdis.Log.Crypto.{Crypto, CryptoLaws}
use lamdis.Log.Entry.{Entry, valid_lane, core_kind}
use lamdis.Log.Envelope.{
  is_version_zero, is_reserved, sign_entry, check_shape, check_behalf, verified, validate,
  canonical_bytes, hex_encode, hex_decode,
}
use lamdis.Log.Hex.{hex_decode-hex_encode, length-hex_encode, every-hex_encode}
use lamdis.Log.Identity.{principal_id, public_key}
use lamdis.Log.KeyText.{public_key-principal_id}
use lamdis.Log.Pattern.{is_ulid, is_kind, is_hash, is_sig}

-- An entry that lacks nothing but its signature.
pub record IsWellFormed (c : Crypto) (e : Entry) : Type 0 where
  pub version : is_version_zero e.v ≡ true
  pub id : is_ulid e.id ≡ true
  pub thread : is_ulid e.thread ≡ true
  pub kind : is_kind e.kind ≡ true
  pub known : (is_reserved e.kind && not (core_kind e.kind)) ≡ false
  pub lane : valid_lane e.lane ≡ true
  pub seq : 1 ≤ e.seq
  pub lamport : 1 ≤ e.lamport
  pub prev : is_hash e.prev ≡ true
  pub behalf : check_behalf c e ≡ ok tt

pub signature-ne : (bytes : List ℕ) → length bytes ≡ 64 → hex_encode bytes ≢ ""
signature-ne bytes size q =
    let a : length (codes (hex_encode bytes)) ≡ 128 =
      omega (arith, length-hex_encode bytes, size) in
    let b : length (codes (hex_encode bytes)) ≡ 0 = rw q refl in omega (arith, a, b)

module _ (c : Crypto) (laws : CryptoLaws c) (priv : List ℕ) where
  signature-is_sig : (msg : String) → is_sig (hex_encode (c.sign priv msg)) ≡ true
  unfolding is_sig
  signature-is_sig msg =
      let size : length (codes (hex_encode (c.sign priv msg))) ≡ 128 =
        omega (arith, length-hex_encode (c.sign priv msg), laws.sign_size priv msg) in
      ground (arith, size, every-hex_encode (c.sign priv msg) (laws.sign_bytes priv msg))

  -- the entry that Sign returns, and what was signed
  pub sign_entry-eq-ok :
      (e e' : Entry)
      → sign_entry c priv e ≡ ok e'
      → (pid msg : String) × (principal_id (c.public priv) ≡ ok pid)
        × (e.author ≡ pid)
        × (canonical_bytes true e ≡ ok msg)
        × (record e { sig = hex_encode (c.sign priv msg) } ≡ e')
  unfolding sign_entry
  sign_entry-eq-ok e e' h =
      let (pid, q, h1) = >>=-eq-ok (principal_id (c.public priv)) _ h in
      let (own, h2) = check-eq-ok (e.author == pid) author_mismatch _ h1 in
      let (msg, m, h3) = >>=-eq-ok (canonical_bytes true e) _ h2 in
      (pid, msg, q, (string_eq.beq_iff e.author pid).0 own, m, ok-injective h3)

  module _ (e : Entry) (well : IsWellFormed c e) (msg : String) where
    abbrev signed : Entry
    signed = record e { sig = hex_encode (c.sign priv msg) }

    check_shape-signed : check_shape c signed ≡ ok tt
    unfolding check_shape
    check_shape-signed = ground (
      arith,
      well.version,
      well.id,
      well.thread,
      well.kind,
      well.known,
      well.lane,
      well.seq,
      well.lamport,
      well.prev,
      signature-is_sig msg,
      signature-ne (c.sign priv msg) (laws.sign_size priv msg),
      string_eq.beq_iff (hex_encode (c.sign priv msg)) "",
    )

    key_read :
        (pid : String)
        → principal_id (c.public priv) ≡ ok pid
        → e.author ≡ pid
        → public_key e.author ≡ ok (c.public priv)
    key_read pid q own =
        let (made, read) =
          public_key-principal_id (c.public priv) (laws.public_size priv)
            (laws.public_bytes priv) in
        rw (own, ok-injective (sym q ∙ made)) read

    is_verified : verified c (c.public priv) msg (hex_decode (codes signed.sig)) ≡ true
    unfolding verified
    is_verified =
        rw (hex_decode-hex_encode (c.sign priv msg) (laws.sign_bytes priv msg))
          (laws.verify-sign priv msg)

    validate-signed :
        (pid : String)
        → principal_id (c.public priv) ≡ ok pid
        → e.author ≡ pid
        → canonical_bytes true e ≡ ok msg
        → validate c signed ≡ ok tt
    unfolding validate
    validate-signed pid q own m =
        let read : public_key e.author ≡ ok (c.public priv) = key_read pid q own in
        let meant : check_behalf c signed ≡ ok tt = (unfold check_behalf in well.behalf) in
        let text : canonical_bytes true signed ≡ ok msg = (unfold canonical_bytes in m) in
        rw check_shape-signed (rw read (rw meant (rw text (rw is_verified refl))))

  -- An entry that lacks nothing but its signature passes Validate once Sign has signed it, under the
  -- documented laws of the cryptography.
  pub sign_entry-validate :
      (e e' : Entry) → IsWellFormed c e → sign_entry c priv e ≡ ok e' → validate c e' ≡ ok tt
  sign_entry-validate e e' well h =
      let (pid, msg, q, own, m, same) = sign_entry-eq-ok e e' h in
      subst (λ x. validate c x ≡ ok tt) same (validate-signed e well msg pid q own m)
