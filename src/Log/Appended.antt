-- ===== src/Log/Appended.antt =====
-- Append keeps the invariant, takes an entry again without a change, and so does the loop that builds a
-- log from stored rows.
use lamdis.Prelude.{
  ◌<◌, String, ◌≡◌, subst, inl, inr, none, some, List, [], ◌∷◌, arith, Bool-cases, Option-cases,
  u64_mod,
}
use lamdis.Prelude.Eq.{◌==◌, string_eq}
use lamdis.Prelude.Lists.{All, In}
use lamdis.Prelude.Map.{lookup}
use lamdis.Result.{
  ok, >>-eq-ok, >>=-eq-ok, check-eq-ok, err-ne-ok, ok-injective, Result-cases, corrupt_store,
  foreign_thread, id_collision,
}
use lamdis.Log.ChainKey.{ChainKey, chain_key_eq, key_of}
use lamdis.Log.Crypto.{Crypto}
use lamdis.Log.Entry.{Entry}
use lamdis.Log.Envelope.{validate, hash}
use lamdis.Log.Invariant.{IsChained}
use lamdis.Log.ThreadLog.{
  ChainHead, ThreadLog, check_chain, admit, append_new, append_again, append, hash_or_empty,
}
use lamdis.Log.Admission.{check_chain-Extends, validate-pos, admit-IsChained}
use lamdis.Log.ThreadLog.{new_thread_log}
use lamdis.Store.Sqlite.{load_from}

append_again-same :
    (c : Crypto) (l : ThreadLog) (e prior : Entry) (l' : ThreadLog)
    → append_again c l e prior ≡ ok l'
    → l ≡ l'
unfolding append_again
append_again-same c l e prior l' h =
    elim (Bool-cases (hash_or_empty c prior == hash_or_empty c e)) [
      | inl q ↦ ok-injective (rw q at h)
      | inr q ↦ absurd (err-ne-ok id_collision l' (rw q at h))
    ]

module _ (c : Crypto) (l : ThreadLog) (e : Entry) (inv : IsChained c l)
    (small : e.seq < u64_mod) where
  heads_small : (k : ChainKey) (h : ChainHead) → lookup k l.heads ≡ some h → h.seq < u64_mod
  heads_small k h q =
      let (x, r) = inv.headed k h q in
      let low : x.seq < u64_mod = inv.range x r.held in omega (arith, r.number)

  append_new-IsChained :
      (l' : ThreadLog)
      → e.thread ≡ l.thread
      → validate c e ≡ ok tt
      → lookup e.id l.by_id ≡ none
      → append_new c l e ≡ ok l'
      → IsChained c l'
  unfolding append_new
  append_new-IsChained l' own sound fresh h =
      let (checked, hashed) = >>-eq-ok (check_chain (lookup (key_of e) l.heads) e) _ h in
      let (d, digest, same) = >>=-eq-ok (hash c e) (λ (d : String). ok (admit l e d)) hashed in
      subst (IsChained c) (ok-injective same) (
        admit-IsChained c l e d inv own sound small fresh
          (check_chain-Extends (lookup (key_of e) l.heads) e (heads_small (key_of e))
            (validate-pos c e sound) checked)
          digest)

  -- If the log satisfies the invariant and Append takes an entry with a number below 2^64, the log
  -- after it satisfies the invariant: in the total order, indexed by id, every entry valid, every
  -- chain numbered from 1 without gaps or forks and linked by hashes up to its head.
  pub append-IsChained : (l' : ThreadLog) → append c l e ≡ ok l' → IsChained c l'
  unfolding append
  append-IsChained l' h =
      let (own, h1) = check-eq-ok (e.thread == l.thread) foreign_thread _ h in
      let (sound, h2) = >>-eq-ok (validate c e) _ h1 in
      elim (Option-cases (lookup e.id l.by_id)) [
        | inl fresh ↦
            append_new-IsChained l' ((string_eq.beq_iff e.thread l.thread).0 own) sound fresh
              (rw fresh at h2)
        | inr (prior, q) ↦ subst (IsChained c) (again prior (rw q at h2)) inv
      ]
    where
      again : (prior : Entry) → append_again c l e prior ≡ ok l' → l ≡ l'
      again prior k = append_again-same c l e prior l' k

  -- On a log that satisfies the invariant, Append of an entry that the log holds, with a number below
  -- 2^64, changes nothing and is no error.
  pub append-redelivered : In e l.entries → append c l e ≡ ok l
  unfolding append append_again
  append-redelivered i =
      rw (inv.indexed e i, inv.valid e i)
        (ground (
          arith,
          inv.in_thread e i,
          string_eq.beq_iff e.thread l.thread,
          string_eq.beq_iff (hash_or_empty c e) (hash_or_empty c e),
        ))

pub new_thread_log-IsChained : (c : Crypto) (thread : String) → IsChained c (new_thread_log thread)
unfolding new_thread_log lookup
new_thread_log-IsChained c thread = record {
  sorted = tt;
  indexed = λ e i. elim i [ ];
  listed = λ id e h. cc;
  in_thread = λ e i. elim i [ ];
  valid = λ e i. elim i [ ];
  range = λ e i. elim i [ ];
  clock = λ e i. elim i [ ];
  known = λ e i. elim i [ ];
  headed = λ k h q. cc;
  linked = λ e i. elim i [ ];
  unforked = λ a b i j k n. elim i [ ];
}

module _ (c : Crypto) where
  load_from-IsChained :
      (l : ThreadLog) (es : List Entry) (l' : ThreadLog)
      → IsChained c l
      → All (λ e. e.seq < u64_mod) es
      → load_from c l es ≡ ok l'
      → IsChained c l'
  unfolding load_from
  load_from-IsChained l [] l' inv small h = subst (IsChained c) (ok-injective h) inv
  load_from-IsChained l (e ∷ es) l' inv small h = elim (Result-cases (append c l e)) [
    | inl (m, q) ↦
        load_from-IsChained m es l' (append-IsChained c l e inv small.0 m q) small.1
          (rw (q, load_from) at h)
    | inr (x, q) ↦ absurd (err-ne-ok corrupt_store l' (rw (q, load_from) at h))
  ]

  -- Whatever entries the rows of a thread hold, with numbers below 2^64, if the loop that rebuilds
  -- the thread's log from them succeeds, the log satisfies the invariant.
  pub load_from-new_thread_log-IsChained :
      (thread : String) (es : List Entry) (l : ThreadLog)
      → All (λ e. e.seq < u64_mod) es
      → load_from c (new_thread_log thread) es ≡ ok l
      → IsChained c l
  load_from-new_thread_log-IsChained thread es l small h =
      load_from-IsChained (new_thread_log thread) es l (new_thread_log-IsChained c thread) small h
