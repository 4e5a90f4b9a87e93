-- ===== src/Log/Invariant.antt =====
-- What holds of every log that was built by Append.
use lamdis.Prelude.{suc, ◌≤◌, ◌<◌, String, ◌≡◌, ◌⊎◌, some, u64_mod}
use lamdis.Prelude.Eq.{string_eq}
use lamdis.Prelude.Lists.{In}
use lamdis.Prelude.Map.{lookup}
use lamdis.Result.{ok}
use lamdis.Log.ChainKey.{ChainKey, chain_key_eq, key_of}
use lamdis.Log.Crypto.{Crypto}
use lamdis.Log.Entry.{Entry, genesis_prev}
use lamdis.Log.Envelope.{validate, hash}
use lamdis.Log.ThreadLog.{ChainHead, ThreadLog}
use lamdis.Log.TotalOrder.{IsSorted}

-- `p` stands directly before `e` in its chain, and `e` names its hash.
pub record Precedes (c : Crypto) (l : ThreadLog) (e p : Entry) : Type 0 where
  pub held : In p l.entries
  pub chain : key_of p ≡ key_of e
  pub step : suc p.seq ≡ e.seq
  pub link : hash c p ≡ ok e.prev

-- `e` is the last entry of its chain, with the head's number and hash.
pub record IsHead (c : Crypto) (l : ThreadLog) (k : ChainKey) (h : ChainHead) (e : Entry)
    : Type 0 where
  pub held : In e l.entries
  pub chain : key_of e ≡ k
  pub number : e.seq ≡ h.seq
  pub digest : hash c e ≡ ok h.hash

pub record IsChained (c : Crypto) (l : ThreadLog) : Type 0 where
  -- the entries are in the total order
  pub sorted : IsSorted l.entries
  -- the index by id holds the entries and nothing else
  pub indexed : (e : Entry) → In e l.entries → lookup e.id l.by_id ≡ some e
  pub listed : (id : String) (e : Entry) → lookup id l.by_id ≡ some e → In e l.entries × (e.id ≡ id)
  -- every entry is of the thread, valid, a machine number apart, and not above the clock
  pub in_thread : (e : Entry) → In e l.entries → e.thread ≡ l.thread
  pub valid : (e : Entry) → In e l.entries → validate c e ≡ ok tt
  pub range : (e : Entry) → In e l.entries → e.seq < u64_mod
  pub clock : (e : Entry) → In e l.entries → e.lamport ≤ l.lamport
  -- every chain has a head, which no entry of the chain is beyond
  pub known :
      (e : Entry)
      → In e l.entries
      → (h : ChainHead) × (lookup (key_of e) l.heads ≡ some h) × (e.seq ≤ h.seq)
  pub headed :
      (k : ChainKey) (h : ChainHead) → lookup k l.heads ≡ some h → (e : Entry) × IsHead c l k h e
  -- every entry is the first of its chain or follows the one that its prev names
  pub linked :
      (e : Entry)
      → In e l.entries
      → ((e.seq ≡ 1) × (e.prev ≡ genesis_prev)) ⊎ ((p : Entry) × Precedes c l e p)
  -- a chain holds one entry for each number
  pub unforked :
      (a b : Entry) → In a l.entries → In b l.entries → key_of a ≡ key_of b → a.seq ≡ b.seq → a ≡ b
