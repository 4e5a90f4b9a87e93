-- ===== src/Log/Authored.antt =====
-- Authoring succeeds: Author.Append on a log that keeps the invariant.
use lamdis.Prelude.{
  ℕ, suc, ◌<◌, String, ◌≡◌, refl, ap, true, false, ◌&&◌, not, none, some, List, arith, ◌⊎◌, u64_mod,
  add64, inl, inr,
}
use Prim.Native.String.{◌++◌ as append_text}
use lamdis.Prelude.Eq.{◌==◌, string_eq, beq_refl}
use lamdis.Prelude.Lists.{In}
use lamdis.Prelude.Map.{lookup}
use lamdis.Json.{Fields, one, obj}
use lamdis.Result.{ok}
use lamdis.Log.Base32.{encode}
use lamdis.Log.ChainKey.{ChainKey, key_of, chain_key_eq}
use lamdis.Log.Crypto.{Crypto, CryptoLaws}
use lamdis.Log.Entry.{Entry, valid_lane, core_kind}
use lamdis.Log.Envelope.{
  is_version_zero, is_reserved, sign_entry, check_behalf, validate, hex_encode, hash,
}
use lamdis.Log.Identity.{principal_prefix, principal_id, public_key}
use lamdis.Log.KeyText.{public_key-principal_id}
use lamdis.Log.Pattern.{is_ulid, is_kind}
use lamdis.Log.Signed.{IsWellFormed, sign_entry-validate, signature-ne}
use lamdis.Log.ThreadLog.{ThreadLog, ChainHead, check_chain, admit, append_new, append}
use lamdis.Log.Author.{Draft, head_or_zero, to_raw_body, draft_entry, author_append}
use lamdis.Log.Insertion.{In-insert_entry}
use lamdis.Log.Invariant.{IsChained}
use lamdis.Log.Appended.{append-IsChained}
use lamdis.Log.NextEntry.{
  check_chain-next, next_pos, text_of, canonical_bytes-text_of, next_prev-is_hash, head_pos,
  head-is_hash,
}

-- What the new entry takes from the log and the draft.
pub record IsAuthored (l : ThreadLog) (self : String) (d : Draft) (fields : Fields) (e : Entry)
    : Type 0 where
  pub thread : e.thread ≡ l.thread
  pub kind : e.kind ≡ d.kind
  pub lane : e.lane ≡ d.lane
  pub author : e.author ≡ self
  pub behalf : e.on_behalf_of ≡ d.on_behalf_of
  pub body : e.body ≡ one (obj fields)
  pub newer : l.lamport < e.lamport

-- A draft, with the id and the time it is given, that a log can take.
pub record CanAuthor (l : ThreadLog) (ulid : String) (d : Draft) : Type 0 where
  pub thread : is_ulid l.thread ≡ true
  pub id : is_ulid ulid ≡ true
  pub fresh : lookup ulid l.by_id ≡ none
  pub kind : is_kind d.kind ≡ true
  pub known : (is_reserved d.kind && not (core_kind d.kind)) ≡ false
  pub lane : valid_lane d.lane ≡ true
  pub behalf : (d.on_behalf_of ≡ "") ⊎ ((key : List ℕ) × (public_key d.on_behalf_of ≡ ok key))
  pub fields : Fields
  pub body : d.body ≡ some (one (obj fields))
  -- the clock and the chains do not wrap
  pub clock : suc l.lamport < u64_mod
  pub number : (k : ChainKey) (h : ChainHead) → lookup k l.heads ≡ some h → suc h.seq < u64_mod

-- The log takes the entry `e` with the hash `h`, under a fresh id.
pub record IsTaken (c : Crypto) (l : ThreadLog) (ulid : String) (e : Entry) (h : String)
    : Type 0 where
  pub taken : append c l e ≡ ok (admit l e h)
  pub fresh : lookup e.id l.by_id ≡ none
  pub digest : hash c e ≡ ok h
  pub name : e.id ≡ ulid
  pub thread : e.thread ≡ l.thread
  pub small : e.seq < u64_mod
  pub clock : e.lamport ≡ add64 l.lamport 1
  pub number : e.seq ≡ add64 (head_or_zero (lookup (key_of e) l.heads)).seq 1

module _ (c : Crypto) (laws : CryptoLaws c) (priv : List ℕ) (l : ThreadLog) (inv : IsChained c l)
    (id ts : String) (d : Draft) (can : CanAuthor l id d) where
  -- who signs, and what
  abbrev pub pid : String
  pid = append_text principal_prefix (encode (c.public priv))

  abbrev draft : Entry
  draft = draft_entry l pid id ts d (one (obj can.fields))

  abbrev chain : ChainKey
  chain = record { thread = l.thread; author = pid; lane = d.lane }

  small : (h : ChainHead) → lookup chain l.heads ≡ some h → suc h.seq < u64_mod
  small h at = can.number chain h at

  behalf_ok : check_behalf c draft ≡ ok tt
  unfolding check_behalf draft_entry
  behalf_ok = elim can.behalf [ inl q ↦ rw q refl | inr (key, q) ↦ ground (arith, q) ]

  draft-IsWellFormed : IsWellFormed c draft
  unfolding draft_entry
  draft-IsWellFormed = record {
    version = unfold is_version_zero in refl;
    id = can.id;
    thread = can.thread;
    kind = can.kind;
    known = can.known;
    lane = can.lane;
    seq = next_pos (lookup chain l.heads) small;
    lamport = omega (arith, can.clock);
    prev = next_prev-is_hash (lookup chain l.heads) (head-is_hash c laws l inv chain);
    behalf = behalf_ok;
  }

  -- what is signed, and the signed entry
  abbrev text : String
  text = text_of true draft can.fields

  abbrev signed : Entry
  signed = record draft { sig = hex_encode (c.sign priv text) }

  pid_lem : principal_id (c.public priv) ≡ ok pid
  pid_lem =
      (public_key-principal_id (c.public priv) (laws.public_size priv) (laws.public_bytes priv)).0

  draft_body : draft.body ≡ one (obj can.fields)
  unfolding draft_entry
  draft_body = refl

  draft_author : (draft.author == pid) ≡ true
  unfolding draft_entry
  draft_author = beq_refl {K = String} pid

  sign_lem : sign_entry c priv draft ≡ ok signed
  unfolding sign_entry
  sign_lem =
      rw pid_lem
        (rw draft_author (rw (canonical_bytes-text_of true draft can.fields draft_body) refl))

  signed-valid : validate c signed ≡ ok tt
  signed-valid = sign_entry-validate c laws priv draft signed draft-IsWellFormed sign_lem

  digest : String
  digest = hex_encode (c.sha256 (text_of false signed can.fields))

  hash_lem : hash c signed ≡ ok digest
  unfolding hash digest
  hash_lem =
      let made : (signed.sig == "") ≡ false = ground (
        arith,
        signature-ne (c.sign priv text) (laws.sign_size priv text),
        string_eq.beq_iff signed.sig "",
      ) in
      rw made (rw (canonical_bytes-text_of false signed can.fields draft_body) refl)

  chain_lem : check_chain (lookup (key_of signed) l.heads) signed ≡ ok tt
  unfolding draft_entry
  chain_lem = check_chain-next (lookup chain l.heads) signed (head_pos c laws l inv chain) refl refl

  in_thread : (signed.thread == l.thread) ≡ true
  unfolding draft_entry
  in_thread = beq_refl {K = String} l.thread

  unknown : lookup signed.id l.by_id ≡ none
  unfolding draft_entry
  unknown = can.fresh

  seq_small : signed.seq < u64_mod
  unfolding draft_entry
  seq_small = omega arith

  append_lem : append c l signed ≡ ok (admit l signed digest)
  unfolding append append_new
  append_lem = rw in_thread (rw signed-valid (rw unknown (rw chain_lem (rw hash_lem refl))))

  body_lem : to_raw_body d.body ≡ ok (one (obj can.fields))
  unfolding to_raw_body
  body_lem = ap to_raw_body can.body

  author_lem : author_append c priv l id ts d ≡ ok (admit l signed digest, signed)
  unfolding author_append
  author_lem = rw pid_lem (simp body_lem (rw sign_lem (rw append_lem refl)))

  -- On a log that keeps the invariant, with a draft that the log can take, Author.Append succeeds: the
  -- new log keeps the invariant, and holds the new entry.
  pub author_append-IsChained :
      (l' : ThreadLog) × (e : Entry) × (author_append c priv l id ts d ≡ ok (l', e))
      × IsChained c l'
      × In e l'.entries
      × (e.id ≡ id)
  author_append-IsChained = (
    admit l signed digest,
    signed,
    author_lem,
    append-IsChained c l signed inv seq_small (admit l signed digest) append_lem,
    (unfold admit in In-insert_entry signed l.entries),
    (unfold draft_entry in refl),
  )

  signed-IsAuthored : IsAuthored l pid d can.fields signed
  unfolding draft_entry
  signed-IsAuthored = record {
    thread = refl;
    kind = refl;
    lane = refl;
    author = refl;
    behalf = refl;
    body = refl;
    newer = omega (arith, can.clock);
  }

  -- the new log and the new entry
  pub author_append-IsAuthored :
      (h : String) × (e : Entry) × (author_append c priv l id ts d ≡ ok (admit l e h, e))
      × IsChained c (admit l e h)
      × IsAuthored l pid d can.fields e
  author_append-IsAuthored = (
    digest,
    signed,
    author_lem,
    append-IsChained c l signed inv seq_small (admit l signed digest) append_lem,
    signed-IsAuthored,
  )

  -- the new entry, and the log that takes it
  pub author_append-IsTaken :
      (h : String) × (e : Entry) × (author_append c priv l id ts d ≡ ok (admit l e h, e))
      × IsTaken c l id e h
  unfolding draft_entry
  author_append-IsTaken = (
    digest,
    signed,
    author_lem,
    record {
      taken = append_lem;
      fresh = unknown;
      digest = hash_lem;
      name = refl;
      thread = refl;
      small = seq_small;
      clock = refl;
      number = refl;
    },
  )
