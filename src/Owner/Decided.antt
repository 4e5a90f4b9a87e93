-- ===== src/Owner/Decided.antt =====
-- A decision through the portal that is not refused is authored and handed to the store.
use lamdis.Prelude.{ℕ, String, ◌≡◌, ◌≢◌, refl, false, Option, some, List, [], ◌∷◌, ◌||◌, arith}
use lamdis.Prelude.Eq.{◌==◌, string_eq}
use lamdis.Json.{Fields}
use lamdis.Result.{ok}
use lamdis.Store.{Store}
use lamdis.Log.Crypto.{Crypto, CryptoLaws}
use lamdis.Log.Entry.{Entry}
use lamdis.Log.Invariant.{IsChained}
use lamdis.Log.ThreadLog.{ThreadLog}
use lamdis.Perm.Apply.{fold}
use lamdis.Perm.State.{Time}
use lamdis.Owner.Authority.{
  HasRoom, IsDecision, owner_id, stored, IsWritten, author_and_store-IsWritten,
}
use lamdis.Owner.Portal.{
  Decision, decide_reply, write, plan, carry_out, decide_found, handle_decide,
}

module _ {S : Type 0} (c : Crypto) (laws : CryptoLaws c) (store : Store S)
    (keep_log : ThreadLog → S → S) (priv : List ℕ) (id ts : String)
    (parse_time : String → Option Time) where
  pub handle_decide-IsWritten :
      (req : Decision) (kind : String) (fields : Fields) (s s1 : S) (l : ThreadLog)
      → plan (fold parse_time req.thread l.entries) req ≡ write kind fields
      → IsDecision kind
      → req.thread ≢ ""
      → req.principal ≢ ""
      → store.thread req.thread s ≡ (ok l, s1)
      → IsChained c l
      → HasRoom l id
      → (e : Entry) × (l' : ThreadLog) × (handle_decide c store keep_log priv id ts parse_time
            (some req)
            s
          ≡ (
            decide_reply (stored e (store.append_entries (e ∷ []) (keep_log l' s1)).0),
            (store.append_entries (e ∷ []) (keep_log l' s1)).1,
          ))
        × IsWritten c l (owner_id c priv) kind fields e l'
  unfolding handle_decide decide_found carry_out
  handle_decide-IsWritten req kind fields s s1 l planned which at named found inv room =
      let (e, l', run, w) =
        author_and_store-IsWritten c laws store keep_log priv id ts l kind fields inv room which in
      let filled : (req.thread == "" || req.principal == "") ≡ false =
        ground
          (arith, at, named, string_eq.beq_iff req.thread "", string_eq.beq_iff req.principal "") in
      (e, l', rw filled (rw found (rw planned (rw (run s1) refl))), w)
