-- ===== src/Api/Auth.antt =====
-- api/api.go: signed requests. The parser of time stamps, the current time and the formatted time are
-- parameters; a body is the text of its bytes.
use Prim.Native.String.{◌++◌}
use lamdis.Prelude.{ℕ, zero, suc, String, Bool, ◌||◌, not, Option, none, some, List}
use lamdis.Prelude.Eq.{◌==◌, string_eq}
use lamdis.Prelude.Int.{pos, ltb_ℤ, ◌+ℤ◌}
use lamdis.Prelude.Text.{codes}
use lamdis.Result.{
  Result, ok, err, check, ◌>>=◌, ◌>>◌, missing_headers, bad_timestamp, outside_skew,
  bad_signature_encoding, unverified,
}
use lamdis.Log.Crypto.{Crypto}
use lamdis.Log.Envelope.{hex_encode, hex_decode}
use lamdis.Log.Identity.{principal_id, public_key}
use lamdis.Perm.State.{Time}

-- The headers are "" where they are missing.
pub record Request : Type 0 where
  pub method : String
  pub path : String
  pub principal : String
  pub timestamp : String
  pub signature : String
  pub body : String

-- five minutes, in nanoseconds
abbrev pub max_skew : Time
max_skew = pos 300_000_000_000

abbrev pub max_body : ℕ
max_body = 33_554_432

-- io.LimitReader
unfoldable pub limit_text : ℕ → String → String
limit_text zero s = ""
limit_text (suc n) String.[] = ""
limit_text (suc n) (String.◌∷◌ c s) = String.◌∷◌ c (limit_text n s)

-- `d > maxSkew || d < -maxSkew` for the difference d of the two instants
unfoldable pub is_skewed : Time → Time → Bool
unfolding ◌+ℤ◌
is_skewed now t = ltb_ℤ (t +ℤ max_skew) now || ltb_ℤ (now +ℤ max_skew) t

unfoldable pub parsed : Option Time → Result Time
parsed none = err bad_timestamp
parsed (some t) = ok t

unfoldable pub read_signature : Option (List ℕ) → Result (List ℕ)
read_signature none = err bad_signature_encoding
read_signature (some sig) = ok sig

module _ (c : Crypto) where
  -- signingInput
  unfoldable pub signing_input : String → String → String → String → String
  signing_input method path timestamp body =
      method ++ "\n" ++ path ++ "\n" ++ timestamp ++ "\n" ++ hex_encode (c.sha256 body)

  -- Sign, on a request whose time stamp is `ts`
  unfoldable pub sign_request : List ℕ → String → Request → Result Request
  unfolding signing_input
  sign_request priv ts r = do
    pid ← principal_id (c.public priv)
    ok (record r {
      principal = pid;
      timestamp = ts;
      signature = hex_encode (c.sign priv (signing_input r.method r.path ts r.body));
    })

  -- authenticate
  unfoldable pub authenticate : (String → Option Time) → Time → Request → Result String
  unfolding signing_input parsed read_signature
  authenticate parse_time now r = do
    check (not (r.principal == "" || r.timestamp == "" || r.signature == "")) missing_headers
    t ← parsed (parse_time r.timestamp)
    check (not (is_skewed now t)) outside_skew
    key ← public_key r.principal
    sig ← read_signature (hex_decode (codes r.signature))
    check (c.verify key (signing_input r.method r.path r.timestamp r.body) sig) unverified
    ok r.principal
