-- ===== src/Log/Hashed.antt =====
-- An entry that Validate takes has a hash, and one that extends its chain passes the check on its chain.
use lamdis.Prelude.{◌<◌, String, ◌≡◌, refl, true, false, Option, none, some, arith, u64_mod}
use lamdis.Prelude.Eq.{◌==◌, string_eq}
use lamdis.Result.{ok, >>-eq-ok, >>=-eq-ok}
use lamdis.Log.Admission.{Extends}
use lamdis.Log.ChainKey.{chain_key_eq}
use lamdis.Log.Crypto.{Crypto}
use lamdis.Log.Entry.{Entry, genesis_prev}
use lamdis.Log.Envelope.{
  validate, hash, check_shape, check_behalf, canonical_bytes, hex_encode, prepared,
}
use lamdis.Log.Encode.{encode_entry}
use lamdis.Log.Canonical.{canonical_body}
use lamdis.Log.Identity.{public_key}
use lamdis.Log.ThreadLog.{ChainHead, check_chain}

check_shape-sig : (c : Crypto) (e : Entry) → check_shape c e ≡ ok tt → (e.sig == "") ≡ false
unfolding check_shape
check_shape-sig c e h = ground (arith, h)

canonical_bytes-again :
    (e : Entry) (msg : String)
    → canonical_bytes true e ≡ ok msg
    → (b : String) × (canonical_bytes false e ≡ ok b)
unfolding canonical_bytes
canonical_bytes-again e msg h =
    let (body, q, rest) = >>=-eq-ok (canonical_body e.body) _ h in
    (encode_entry (prepared false e) body, rw q refl)

-- An entry that Validate takes has a hash.
pub validate-hash :
    (c : Crypto) (e : Entry) → validate c e ≡ ok tt → (d : String) × (hash c e ≡ ok d)
unfolding validate hash
validate-hash c e h =
    let (shape, h1) = >>-eq-ok (check_shape c e) _ h in
    let (key, known, h2) = >>=-eq-ok (public_key e.author) _ h1 in
    let (meant, h3) = >>-eq-ok (check_behalf c e) _ h2 in
    let (msg, read, good) = >>=-eq-ok (canonical_bytes true e) _ h3 in
    let (b, again) = canonical_bytes-again e msg read in
    (hex_encode (c.sha256 b), rw (check_shape-sig c e shape) (rw again refl))

pub Extends-check_chain :
    (o : Option ChainHead) (e : Entry) → e.seq < u64_mod → Extends o e → check_chain o e ≡ ok tt
unfolding Extends check_chain
Extends-check_chain none e small x = ground (arith, x, string_eq.beq_iff e.prev genesis_prev)
Extends-check_chain (some h) e small x = ground (arith, x, small, string_eq.beq_iff e.prev h.hash)
