-- ===== src/Log/FirstEntry.antt =====
-- Append takes the first entry of a chain that the log does not have.
use lamdis.Prelude.{String, ◌≡◌, ◌≢◌, refl, true, eqb, none, arith, inl, inr, Option-cases}
use lamdis.Prelude.Eq.{◌==◌, string_eq}
use lamdis.Prelude.Lists.{In}
use lamdis.Prelude.Map.{lookup}
use lamdis.Result.{ok}
use lamdis.Log.ChainKey.{chain_key_eq, key_of}
use lamdis.Log.Crypto.{Crypto}
use lamdis.Log.Entry.{Entry, genesis_prev}
use lamdis.Log.Envelope.{validate, hash}
use lamdis.Log.Hashed.{validate-hash}
use lamdis.Log.Invariant.{IsChained}
use lamdis.Log.ThreadLog.{ThreadLog, check_chain, append, append_new, admit}

-- A valid entry that opens a chain.
pub record IsFirstOf (c : Crypto) (e : Entry) : Type 0 where
  pub valid : validate c e ≡ ok tt
  pub seq : e.seq ≡ 1
  pub prev : e.prev ≡ genesis_prev

module _ (c : Crypto) (l : ThreadLog) (e : Entry) (inv : IsChained c l) (first : IsFirstOf c e)
    (own : e.thread ≡ l.thread) (ids : (x : Entry) → In x l.entries → x.id ≢ e.id)
    (keys : (x : Entry) → In x l.entries → key_of x ≢ key_of e) where
  pub id_absent : lookup e.id l.by_id ≡ none
  id_absent = elim (Option-cases (lookup e.id l.by_id)) [
    | inl q ↦ q
    | inr (p, q) ↦ let (held, name) = inv.listed e.id p q in absurd (ids p held name)
  ]

  head_absent : lookup (key_of e) l.heads ≡ none
  head_absent = elim (Option-cases (lookup (key_of e) l.heads)) [
    | inl q ↦ q
    | inr (h, q) ↦ let (p, head) = inv.headed (key_of e) h q in absurd (keys p head.held head.chain)
  ]

  pub append-first : (d : String) × (hash c e ≡ ok d) × (append c l e ≡ ok (admit l e d))
  unfolding append append_new check_chain
  append-first =
      let (d, digest) = validate-hash c e first.valid in
      let mine : (e.thread == l.thread) ≡ true = (string_eq.beq_iff e.thread l.thread).1 own in
      let one : eqb e.seq 1 ≡ true = ground (arith, first.seq) in
      let zeroes : (e.prev == genesis_prev) ≡ true =
        (string_eq.beq_iff e.prev genesis_prev).1 first.prev in
      (d, digest, rw (mine, first.valid, id_absent, head_absent, one, zeroes, digest) refl)
