-- ===== src/Owner/Denies.antt =====
-- The portal's deny and revoke take effect.
use lamdis.Prelude.{
  ℕ, String, ◌≡◌, ◌≢◌, refl, ap, ◌∙◌, false, Option, none, some, List, [], ◌∷◌, ◌++◌, arith, inl,
  inr, ◌⊎◌,
}
use lamdis.Prelude.Eq.{string_eq}
use lamdis.Prelude.Int.{pos}
use lamdis.Prelude.Map.{lookup, has}
use lamdis.Json.{one, obj}
use lamdis.Json.Bodies.{decode_grant}
use lamdis.Result.{ok}
use lamdis.Store.{Store}
use lamdis.Log.Crypto.{Crypto, CryptoLaws}
use lamdis.Log.Entry.{Entry, kind_deny, kind_revoke}
use lamdis.Log.Invariant.{IsChained}
use lamdis.Log.ThreadLog.{ThreadLog}
use lamdis.Perm.Apply.{apply_deny, fold}
use lamdis.Perm.Cases.{apply-deny}
use lamdis.Perm.Hidden.{denied-lanes}
use lamdis.Perm.Query.{lanes}
use lamdis.Perm.State.{Time, State}
use lamdis.Owner.Control.{denial_fields}
use lamdis.Owner.Authority.{
  HasRoom, owner_id, IsSteward, IsSteward-may_decide, stored, IsWritten, fold-last,
}
use lamdis.Owner.Decided.{handle_decide-IsWritten}
use lamdis.Owner.Portal.{Decision, decide_reply, write, plan, handle_decide}

-- a decision that takes access away, and the kind of its entry
abbrev pub IsDenial : String → String → Type 0
IsDenial decision kind =
    ((decision ≡ "deny") × (kind ≡ kind_deny)) ⊎ ((decision ≡ "revoke") × (kind ≡ kind_revoke))

decode_grant-denial :
    (p : String)
    → decode_grant (one (obj (denial_fields p)))
      ≡ some (record { principal = p; scopes = []; ttl_seconds = pos 0; request = "" })
unfolding decode_grant denial_fields
decode_grant-denial p = refl

pub plan-denial :
    (st : State) (req : Decision) (kind : String)
    → IsDenial req.decision kind
    → plan st req ≡ write kind (denial_fields req.principal)
unfolding plan
plan-denial st req kind (inl (q, k)) = simp (q, k)
plan-denial st req kind (inr (q, k)) = simp (q, k)

-- a deny by a steward leaves the stewards and the delegations as they are
apply_deny-authority :
    (st : State) (e : Entry)
    → ((apply_deny st e).stewards ≡ st.stewards) × ((apply_deny st e).delegations ≡ st.delegations)
unfolding apply_deny
apply_deny-authority st e = (ground arith, ground arith)

module _ {S : Type 0} (c : Crypto) (laws : CryptoLaws c) (store : Store S)
    (keep_log : ThreadLog → S → S) (priv : List ℕ) (id ts : String)
    (parse_time : String → Option Time) where
  -- the log that a denial is written to gives the principal nothing
  pub IsWritten-denied :
      (l l' : ThreadLog) (e : Entry) (kind p : String)
      → (kind ≡ kind_deny) ⊎ (kind ≡ kind_revoke)
      → IsWritten c l (owner_id c priv) kind (denial_fields p) e l'
      → IsSteward (fold parse_time l.thread l.entries) (owner_id c priv)
      → p ≢ ""
      → has (fold parse_time l.thread l.entries).stewards p ≡ false
      → lookup p (fold parse_time l.thread l.entries).delegations ≡ none
      → (now : Time) → lanes (fold parse_time l.thread l'.entries) p now ≡ []
  IsWritten-denied l l' e kind p which w owner named plain own now =
      let st : State = fold parse_time l.thread l.entries in
      let q : (e.kind ≡ kind_deny) ⊎ (e.kind ≡ kind_revoke) = elim which [
        | inl k ↦ inl (w.authored.kind ∙ k)
        | inr k ↦ inr (w.authored.kind ∙ k)
      ] in
      let after : fold parse_time l.thread (l.entries ++ e ∷ []) ≡ apply_deny st e =
        fold-last parse_time l.thread l.entries e w.authored.lane w.authored.thread
        ∙ apply-deny parse_time st e q in
      rw w.entries (
        denied-lanes parse_time l.thread l.entries [] e
          (record { principal = p; scopes = []; ttl_seconds = pos 0; request = "" }) w.authored.lane
          w.authored.thread q
          (IsSteward-may_decide st e (owner_id c priv) owner w.authored.author w.authored.behalf)
          (ap decode_grant w.authored.body ∙ decode_grant-denial p) named tt
          (ap (λ (x : State). has x.stewards p) after
            ∙ ap (λ m. has m p) (apply_deny-authority st e).0
            ∙ plain)
          (ap (λ (x : State). lookup p x.delegations) after
            ∙ ap (λ m. lookup p m) (apply_deny-authority st e).1
            ∙ own)
          now)

  -- If the owner, as a steward and a person, denies or revokes somebody's access through the portal,
  -- on a thread whose log keeps the invariant and can take one more entry, and the person named is no
  -- steward and no delegated key, then the handler authors an entry that is last in a log which keeps
  -- the invariant and gives the person no lane at any time, and hands it to the store, whose outcome
  -- is the reply.
  pub handle_decide-denies :
      (req : Decision) (kind : String) (s s1 : S) (l : ThreadLog)
      → IsDenial req.decision kind
      → req.thread ≢ ""
      → req.principal ≢ ""
      → store.thread req.thread s ≡ (ok l, s1)
      → IsChained c l
      → HasRoom l id
      → IsSteward (fold parse_time l.thread l.entries) (owner_id c priv)
      → has (fold parse_time l.thread l.entries).stewards req.principal ≡ false
      → lookup req.principal (fold parse_time l.thread l.entries).delegations ≡ none
      → (e : Entry) × (l' : ThreadLog) × (handle_decide c store keep_log priv id ts parse_time
            (some req)
            s
          ≡ (
            decide_reply (stored e (store.append_entries (e ∷ []) (keep_log l' s1)).0),
            (store.append_entries (e ∷ []) (keep_log l' s1)).1,
          ))
        × IsChained c l'
        × (l'.entries ≡ l.entries ++ e ∷ [])
        × ((now : Time) → lanes (fold parse_time l.thread l'.entries) req.principal now ≡ [])
  handle_decide-denies req kind s s1 l denial at named found inv room owner plain own =
      let which : (kind ≡ kind_deny) ⊎ (kind ≡ kind_revoke) = elim denial [
        | inl (d, k) ↦ inl k
        | inr (d, k) ↦ inr k
      ] in
      let (e, l', run, w) =
        handle_decide-IsWritten c laws store keep_log priv id ts parse_time req kind
          (denial_fields req.principal) s s1 l
          (plan-denial (fold parse_time req.thread l.entries) req kind denial) (inr which) at named
          found inv room in
      (
        e,
        l',
        run,
        w.chained,
        w.entries,
        IsWritten-denied l l' e kind req.principal which w owner named plain own,
      )
