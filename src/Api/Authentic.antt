-- ===== src/Api/Authentic.antt =====
-- What authenticate accepts, and that it accepts what Sign signs.
use Prim.Native.String.{◌++◌ as append}
use lamdis.Prelude.{
  ℕ, ◌+◌, String, ◌≡◌, ◌≢◌, refl, sym, ap, ◌∙◌, subst, Bool, true, false, ◌||◌, not, Option, none,
  some, List, arith,
}
use lamdis.Prelude.Eq.{◌==◌, string_eq}
use lamdis.Prelude.Int.{pos, ltb_ℤ, ◌+ℤ◌}
use lamdis.Prelude.Text.{codes, codes-append}
use lamdis.Prelude.Lists.{length}
use lamdis.Result.{
  ok, >>=-eq-ok, check-eq-ok, ok-injective, missing_headers, outside_skew, unverified,
}
use lamdis.Log.Base32.{encode}
use lamdis.Log.Crypto.{Crypto, CryptoLaws}
use lamdis.Log.Envelope.{hex_encode, hex_decode}
use lamdis.Log.Hex.{hex_decode-hex_encode}
use lamdis.Log.Identity.{principal_id, public_key, principal_prefix}
use lamdis.Log.KeyText.{public_key-principal_id}
use lamdis.Log.Signed.{signature-ne}
use lamdis.Perm.State.{Time}
use lamdis.Api.Auth.{
  Request, authenticate, sign_request, signing_input, is_skewed, parsed, read_signature,
}

-- A request that `pid` signed: its own method, path, time stamp and the hash of its body, a line each, at
-- most five minutes before or after the server's clock.
pub record IsAuthentic (c : Crypto) (parse_time : String → Option Time) (now : Time) (r : Request)
    (pid : String) : Type 0 where
  pub claimed : r.principal ≡ pid
  pub time : Time
  pub stamped : parse_time r.timestamp ≡ some time
  pub not_old : ltb_ℤ (time +ℤ pos 300_000_000_000) now ≡ false
  pub not_ahead : ltb_ℤ (now +ℤ pos 300_000_000_000) time ≡ false
  pub key : List ℕ
  pub key_of : public_key pid ≡ ok key
  pub sig : List ℕ
  pub signature : hex_decode (codes r.signature) ≡ some sig
  pub verifies :
      c.verify key
        (append r.method (
          append "\n" (
            append r.path
              (append "\n" (append r.timestamp (append "\n" (hex_encode (c.sha256 r.body))))))))
        sig
      ≡ true

or_false : (a b : Bool) → (a || b) ≡ false → a ≡ false
or_false a b h = ground (arith, h)

or_false_right : (a b : Bool) → (a || b) ≡ false → b ≡ false
or_false_right a b h = ground (arith, h)

parsed-eq-ok : (o : Option Time) (t : Time) → parsed o ≡ ok t → o ≡ some t
unfolding parsed
parsed-eq-ok none t h = cc
parsed-eq-ok (some u) t h = cc

-- the two sides of the window
within :
    (now t : Time)
    → is_skewed now t ≡ false
    → (ltb_ℤ (t +ℤ pos 300_000_000_000) now ≡ false)
      × (ltb_ℤ (now +ℤ pos 300_000_000_000) t ≡ false)
unfolding is_skewed
within now t h = (or_false _ _ h, or_false_right _ _ h)

read_signature-eq-ok :
    (o : Option (List ℕ)) (sig : List ℕ) → read_signature o ≡ ok sig → o ≡ some sig
unfolding read_signature
read_signature-eq-ok none t h = cc
read_signature-eq-ok (some u) t h = cc

module _ (c : Crypto) (parse_time : String → Option Time) (now : Time) where
  -- If a request is authenticated as a principal, the principal is the one that its header names, its
  -- time stamp is within five minutes of the server's clock, and its signature verifies, under the
  -- principal's key, over its method, path, time stamp and the hash of its body, a line each.
  pub authenticate-IsAuthentic :
      (r : Request) (pid : String)
      → authenticate c parse_time now r ≡ ok pid
      → IsAuthentic c parse_time now r pid
  unfolding authenticate
  authenticate-IsAuthentic r pid h =
      let (full, h1) =
        check-eq-ok (not (r.principal == "" || r.timestamp == "" || r.signature == ""))
          missing_headers _ h in
      let (t, stamped, h2) = >>=-eq-ok (parsed (parse_time r.timestamp)) _ h1 in
      let (recent, h3) = check-eq-ok (not (is_skewed now t)) outside_skew _ h2 in
      let (key, known, h4) = >>=-eq-ok (public_key r.principal) _ h3 in
      let (sig, read, h5) = >>=-eq-ok (read_signature (hex_decode (codes r.signature))) _ h4 in
      let (good, h6) =
        check-eq-ok (c.verify key (signing_input c r.method r.path r.timestamp r.body) sig)
          unverified _ h5 in
      let same : r.principal ≡ pid = ok-injective h6 in
      record {
        claimed = same;
        time = t;
        stamped = parsed-eq-ok (parse_time r.timestamp) t stamped;
        not_old = (within now t (ground (arith, recent))).0;
        not_ahead = (within now t (ground (arith, recent))).1;
        key = key;
        key_of = ap public_key (sym same) ∙ known;
        sig = sig;
        signature = read_signature-eq-ok _ sig read;
        verifies = unfold signing_input in good;
      }

  module _ (laws : CryptoLaws c) (priv : List ℕ) where
    -- the principal that signs
    abbrev pub own_id : String
    own_id = append principal_prefix (encode (c.public priv))

    -- what Sign makes of a request
    abbrev pub signed : String → Request → Request
    signed ts r = record r {
      principal = own_id;
      timestamp = ts;
      signature = hex_encode (c.sign priv (signing_input c r.method r.path ts r.body));
    }

    own_lem : (principal_id (c.public priv) ≡ ok own_id) × (public_key own_id ≡ ok (c.public priv))
    own_lem =
        public_key-principal_id (c.public priv) (laws.public_size priv) (laws.public_bytes priv)

    own-ne : (own_id == "") ≡ false
    own-ne =
        let size : length (codes own_id) ≡ 8 + length (codes (encode (c.public priv))) =
          rw (codes-append principal_prefix (encode (c.public priv))) (omega arith) in
        ground (
          arith,
          string_eq.beq_iff own_id "",
          size,
          λ (q : own_id ≡ ""). ap (λ (s : String). length (codes s)) q,
        )

    pub sign_request-signed :
        (r : Request) (ts : String) → sign_request c priv ts r ≡ ok (signed ts r)
    unfolding sign_request
    sign_request-signed r ts = rw own_lem.0 refl

    module _ (r : Request) (ts : String) (t : Time) (stamped : parse_time ts ≡ some t)
        (some_time : ts ≢ "") (recent : is_skewed now t ≡ false) where
      abbrev bytes : List ℕ
      bytes = c.sign priv (signing_input c r.method r.path ts r.body)

      full : (own_id == "" || ts == "" || hex_encode bytes == "") ≡ false
      full = ground (
        arith,
        own-ne,
        some_time,
        string_eq.beq_iff ts "",
        signature-ne bytes (laws.sign_size priv _),
        string_eq.beq_iff (hex_encode bytes) "",
      )

      sig_read : hex_decode (codes (hex_encode bytes)) ≡ some bytes
      sig_read = hex_decode-hex_encode bytes (laws.sign_bytes priv _)

      pub authenticate-signed : authenticate c parse_time now (signed ts r) ≡ ok own_id
      unfolding authenticate parsed read_signature
      authenticate-signed =
          rw full
            (rw stamped (rw recent (rw own_lem.1 (rw sig_read (rw (laws.verify-sign priv) refl)))))

    -- A request that was signed with a time stamp within five minutes of the server's clock is
    -- authenticated as the principal of the signing key, under the documented laws of the cryptography.
    pub authenticate-sign_request :
        (r r' : Request) (ts : String) (t : Time)
        → sign_request c priv ts r ≡ ok r'
        → ts ≢ ""
        → parse_time ts ≡ some t
        → is_skewed now t ≡ false
        → authenticate c parse_time now r' ≡ ok own_id
    authenticate-sign_request r r' ts t sent some_time stamped recent =
        let same : signed ts r ≡ r' = ok-injective (sym (sign_request-signed r ts) ∙ sent) in
        subst (λ x. authenticate c parse_time now x ≡ ok own_id) same
          (authenticate-signed r ts t stamped some_time recent)
