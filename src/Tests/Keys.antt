-- ===== src/Tests/Keys.antt =====
-- Keys, signatures and authored entries.
use Prim.Native.String.{◌++◌}
use lamdis.Prelude.{ℕ, zero, suc, ◌<◌, String, u64_mod, ◌≡◌, refl, [], arith, none, some, inl}
use lamdis.Prelude.Lists.{All, In}
use lamdis.Prelude.Map.{lookup, insert}
use lamdis.Json.{one, obj, str, field, end, Fields}
use lamdis.Result.{ok}
use lamdis.Log.Author.{Draft, author_append}
use lamdis.Log.Authored.{CanAuthor, author_append-IsChained}
use lamdis.Log.Base32.{encode}
use lamdis.Log.ChainKey.{ChainKey, chain_key_eq}
use lamdis.Log.Crypto.{CryptoLaws}
use lamdis.Log.Entry.{Entry, kind_message, lane_content, kind_thread}
use lamdis.Log.Envelope.{check_behalf, sign_entry, validate}
use lamdis.Log.Identity.{principal_id, principal_prefix}
use lamdis.Log.Invariant.{IsChained}
use lamdis.Log.Signed.{IsWellFormed, sign_entry-validate}
use lamdis.Log.ThreadLog.{ChainHead, ThreadLog, new_thread_log, admit}
use lamdis.Tests.Fixtures.{zeros, zero_crypto, genesis}
use lamdis.Tests.Logs.{first_log, first_log-IsChained}

zeros_small : (n : ℕ) → All (λ b. b < 256) (zeros n)
zeros_small zero = tt
zeros_small (suc n) = (omega arith, zeros_small n)

pub zero_laws : CryptoLaws zero_crypto
zero_laws = record {
  digest_size = λ _. refl;
  digest_bytes = λ _. zeros_small 32;
  public_size = λ _. refl;
  public_bytes = λ _. zeros_small 32;
  sign_size = λ _ _. refl;
  sign_bytes = λ _ _. zeros_small 64;
  verify-sign = λ _ _. refl;
}

abbrev unsigned : Entry
unsigned = record genesis { author = principal_prefix ++ encode (zeros 32); sig = "" }

unsigned-IsWellFormed : IsWellFormed zero_crypto unsigned
unfolding check_behalf lamdis.Log.Envelope.is_version_zero lamdis.Log.Pattern.is_ulid
    lamdis.Log.Pattern.is_kind lamdis.Log.Entry.valid_lane lamdis.Log.Pattern.is_hash
    lamdis.Log.Envelope.is_reserved lamdis.Log.Entry.core_kind
unsigned-IsWellFormed = record {
  version = refl;
  id = refl;
  thread = refl;
  kind = refl;
  known = refl;
  lane = refl;
  seq = omega arith;
  lamport = omega arith;
  prev = refl;
  behalf = refl;
}

signed_run : sign_entry zero_crypto [] unsigned ≡ ok (record unsigned { sig = genesis.sig })
unfolding sign_entry principal_id lamdis.Log.Envelope.canonical_bytes
    lamdis.Log.Canonical.canonical_body lamdis.Log.Envelope.hex_encode
signed_run = refl

sign_entry-validate_example : validate zero_crypto (record unsigned { sig = genesis.sig }) ≡ ok tt
sign_entry-validate_example =
    sign_entry-validate zero_crypto zero_laws [] unsigned (record unsigned { sig = genesis.sig })
      unsigned-IsWellFormed signed_run

abbrev new_id : String
new_id = "01ARZ3NDEKTSV4RRFFQ69G5FC1"

abbrev greeting : Fields
greeting = field "text" (str "hello") end

abbrev hello : Draft
hello = record {
  kind = kind_message;
  lane = lane_content;
  on_behalf_of = "";
  refs = none;
  body = some (one (obj greeting));
}

numbers : (k : ChainKey) (h : ChainHead) → lookup k first_log.heads ≡ some h → suc h.seq < u64_mod
unfolding admit new_thread_log insert lookup
numbers k h at = ground arith

can_greet : CanAuthor first_log new_id hello
unfolding admit new_thread_log insert lookup lamdis.Log.Pattern.is_ulid lamdis.Log.Pattern.is_kind
    lamdis.Log.Entry.valid_lane lamdis.Log.Envelope.is_reserved lamdis.Log.Entry.core_kind
can_greet = record {
  thread = refl;
  id = refl;
  fresh = refl;
  kind = refl;
  known = refl;
  lane = refl;
  behalf = inl refl;
  fields = greeting;
  body = refl;
  clock = omega arith;
  number = λ k h at. numbers k h at;
}

author_append-IsChained_example :
    (l : ThreadLog) × (e : Entry) × (author_append zero_crypto [] first_log new_id
        "2026-01-01T00:00:00Z" hello
      ≡ ok (l, e))
    × IsChained zero_crypto l
    × In e l.entries
    × (e.id ≡ new_id)
author_append-IsChained_example =
    author_append-IsChained zero_crypto zero_laws [] first_log first_log-IsChained new_id
      "2026-01-01T00:00:00Z" hello can_greet
