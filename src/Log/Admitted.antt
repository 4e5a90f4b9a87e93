-- ===== src/Log/Admitted.antt =====
-- The two ways in which Append takes an entry: it is there already, or it is admitted.
use lamdis.Prelude.{◌≡◌, ◌⊎◌, inl, inr, String, none, some, Bool-cases, Option-cases}
use lamdis.Prelude.Eq.{◌==◌, string_eq}
use lamdis.Prelude.Map.{lookup}
use lamdis.Result.{
  ok, >>-eq-ok, >>=-eq-ok, check-eq-ok, err-ne-ok, ok-injective, foreign_thread, id_collision,
}
use lamdis.Log.ChainKey.{key_of, chain_key_eq}
use lamdis.Log.Crypto.{Crypto}
use lamdis.Log.Entry.{Entry}
use lamdis.Log.Envelope.{validate, hash}
use lamdis.Log.ThreadLog.{
  ThreadLog, check_chain, admit, append_new, append_again, append, hash_or_empty,
}

-- the log holds an entry with its id and its hash, and stays
pub record IsKnown (c : Crypto) (l : ThreadLog) (e : Entry) (l' : ThreadLog) : Type 0 where
  pub prior : Entry
  pub found : lookup e.id l.by_id ≡ some prior
  pub digest : hash_or_empty c prior ≡ hash_or_empty c e
  pub same : l ≡ l'

-- the log has no entry with its id, and admits it
pub record IsAdmitted (c : Crypto) (l : ThreadLog) (e : Entry) (l' : ThreadLog) : Type 0 where
  pub fresh : lookup e.id l.by_id ≡ none
  pub hashed : String
  pub digest : hash c e ≡ ok hashed
  pub grown : admit l e hashed ≡ l'

module _ (c : Crypto) (l : ThreadLog) (e : Entry) (l' : ThreadLog) where
  append_again-IsKnown :
      (prior : Entry)
      → lookup e.id l.by_id ≡ some prior
      → append_again c l e prior ≡ ok l'
      → IsKnown c l e l'
  unfolding append_again
  append_again-IsKnown prior q h = elim (Bool-cases (hash_or_empty c prior == hash_or_empty c e)) [
    | inl p ↦ record {
      prior = prior;
      found = q;
      digest = (string_eq.beq_iff (hash_or_empty c prior) (hash_or_empty c e)).0 p;
      same = ok-injective (rw p at h);
    }
    | inr p ↦ absurd (err-ne-ok id_collision l' (rw p at h))
  ]

  append_new-IsAdmitted :
      lookup e.id l.by_id ≡ none → append_new c l e ≡ ok l' → IsAdmitted c l e l'
  unfolding append_new
  append_new-IsAdmitted q h =
      let (checked, hashed) = >>-eq-ok (check_chain (lookup (key_of e) l.heads) e) _ h in
      let (d, digest, grown) = >>=-eq-ok (hash c e) (λ (d : String). ok (admit l e d)) hashed in
      record { fresh = q; hashed = d; digest = digest; grown = ok-injective grown }

  pub append-cases :
      append c l e ≡ ok l' → (e.thread ≡ l.thread) × (IsKnown c l e l' ⊎ IsAdmitted c l e l')
  unfolding append
  append-cases h =
      let (own, h1) = check-eq-ok (e.thread == l.thread) foreign_thread _ h in
      let (sound, h2) = >>-eq-ok (validate c e) _ h1 in
      (
        (string_eq.beq_iff e.thread l.thread).0 own,
        elim (Option-cases (lookup e.id l.by_id)) [
          | inl q ↦ inr (append_new-IsAdmitted q (rw q at h2))
          | inr (prior, q) ↦ inl (append_again-IsKnown prior q (rw q at h2))
        ],
      )
