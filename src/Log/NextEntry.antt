-- ===== src/Log/NextEntry.antt =====
-- The next entry of a chain: its number, its predecessor's hash, its canonical text.
use lamdis.Prelude.{
  suc, ◌≤◌, ◌<◌, String, ◌≡◌, refl, subst, Bool, true, false, not, Option, none, some, arith, ltb,
  if◌then◌else◌, if_ind, u64_mod, add64,
}
use lamdis.Prelude.Eq.{◌==◌, string_eq}
use lamdis.Prelude.Lists.{length}
use lamdis.Prelude.Map.{lookup}
use lamdis.Prelude.Text.{codes}
use lamdis.Json.{Fields, one, obj}
use lamdis.Result.{ok, >>=-eq-ok, check-eq-ok, ok-injective, unsigned}
use lamdis.Log.ChainKey.{ChainKey, chain_key_eq}
use lamdis.Log.Crypto.{Crypto, CryptoLaws}
use lamdis.Log.Canonical.{canonical_body, write_canonical}
use lamdis.Log.Encode.{encode_entry}
use lamdis.Log.Entry.{Entry, genesis_prev}
use lamdis.Log.Envelope.{canonical_bytes, hex_encode, hash, prepared}
use lamdis.Log.Hex.{length-hex_encode, every-hex_encode}
use lamdis.Log.Pattern.{is_hash}
use lamdis.Log.ThreadLog.{ThreadLog, ChainHead, check_chain}
use lamdis.Log.Author.{head_or_zero}
use lamdis.Log.Admission.{validate-pos}
use lamdis.Log.Invariant.{IsChained}

-- what Author.Append writes into prev
abbrev pub next_prev : ChainHead → String
next_prev h = if ltb 0 h.seq then h.hash else genesis_prev

pub check_chain-next :
    (o : Option ChainHead) (e : Entry)
    → ((h : ChainHead) → o ≡ some h → 0 < h.seq)
    → e.seq ≡ add64 (head_or_zero o).seq 1
    → e.prev ≡ next_prev (head_or_zero o)
    → check_chain o e ≡ ok tt
unfolding check_chain head_or_zero
check_chain-next none e first s p = ground (arith, s, p, string_eq.beq_iff e.prev genesis_prev)
check_chain-next (some h) e first s p =
    ground (arith, s, p, first h refl, string_eq.beq_iff e.prev h.hash)

pub next_pos :
    (o : Option ChainHead)
    → ((h : ChainHead) → o ≡ some h → suc h.seq < u64_mod)
    → 1 ≤ add64 (head_or_zero o).seq 1
unfolding head_or_zero
next_pos none h = omega arith
next_pos (some x) h = omega (arith, h x refl)

abbrev pub text_of : Bool → Entry → Fields → String
text_of signing e fs = encode_entry (prepared signing e) (write_canonical (obj fs))

pub canonical_bytes-text_of :
    (signing : Bool) (e : Entry) (fs : Fields)
    → e.body ≡ one (obj fs)
    → canonical_bytes signing e ≡ ok (text_of signing e fs)
unfolding canonical_bytes canonical_body
canonical_bytes-text_of signing e fs q = rw q refl

pub next_prev-is_hash :
    (o : Option ChainHead)
    → ((h : ChainHead) → o ≡ some h → is_hash h.hash ≡ true)
    → is_hash (next_prev (head_or_zero o)) ≡ true
unfolding head_or_zero
next_prev-is_hash none h = unfold is_hash in refl
next_prev-is_hash (some x) h =
    if_ind (λ (s : String). is_hash s ≡ true) (ltb 0 x.seq) x.hash genesis_prev (λ _. h x refl)
      (λ _. unfold is_hash in refl)

-- Hash returns a text that Validate takes for a hash.
module _ (c : Crypto) (laws : CryptoLaws c) where
  pub digest-is_hash : (b : String) → is_hash (hex_encode (c.sha256 b)) ≡ true
  unfolding is_hash
  digest-is_hash b =
      let size : length (codes (hex_encode (c.sha256 b))) ≡ 64 =
        omega (arith, length-hex_encode (c.sha256 b), laws.digest_size b) in
      ground (arith, size, every-hex_encode (c.sha256 b) (laws.digest_bytes b))

  pub hash-is_hash : (e : Entry) (h : String) → hash c e ≡ ok h → is_hash h ≡ true
  unfolding hash
  hash-is_hash e h q =
      let (signed, q1) = check-eq-ok (not (e.sig == "")) unsigned _ q in
      let (b, m, same) =
        >>=-eq-ok (canonical_bytes false e) (λ (b : String). ok (hex_encode (c.sha256 b))) q1 in
      subst (λ (s : String). is_hash s ≡ true) (ok-injective same) (digest-is_hash b)

  -- the heads of a log that keeps the invariant
  module _ (l : ThreadLog) (inv : IsChained c l) (k : ChainKey) (h : ChainHead)
      (at : lookup k l.heads ≡ some h) where
    pub head_pos : 0 < h.seq
    head_pos =
        let (x, r) = inv.headed k h at in
        omega (arith, r.number, validate-pos c x (inv.valid x r.held))

    pub head-is_hash : is_hash h.hash ≡ true
    head-is_hash = let (x, r) = inv.headed k h at in hash-is_hash x h.hash r.digest
