-- ===== src/Owner/Grants.antt =====
-- The portal's approval takes effect.
use lamdis.Prelude.{
  ℕ, String, ◌≡◌, ◌≢◌, refl, ap, ◌∙◌, true, false, Option, none, some, List, [], ◌∷◌, ◌++◌, arith,
  inl,
}
use lamdis.Prelude.Eq.{string_eq}
use lamdis.Prelude.Map.{lookup, has}
use lamdis.Json.Bodies.{decode_grant}
use lamdis.Result.{ok}
use lamdis.Store.{Store}
use lamdis.Log.Crypto.{Crypto, CryptoLaws}
use lamdis.Log.Entry.{Entry, kind_grant}
use lamdis.Log.Invariant.{IsChained}
use lamdis.Log.ThreadLog.{ThreadLog}
use lamdis.Perm.Apply.{fold}
use lamdis.Perm.State.{Time, State}
use lamdis.Owner.Authority.{
  HasRoom, owner_id, IsSteward, IsSteward-may_decide, stored, IsWritten, fold-last,
}
use lamdis.Owner.Portal.{Decision, decide_reply, write, plan, handle_decide}
use lamdis.Owner.Control.{all_valid, grant_fields}
use lamdis.Owner.Decided.{handle_decide-IsWritten}
use lamdis.Owner.Granted.{decode_grant-grant_fields, apply_grant-has}
use lamdis.Owner.Portal.{asked_for, plan_grant}
use lamdis.Perm.Apply.{apply_grant, last_denied}
use lamdis.Perm.Cases.{apply-grant}
use lamdis.Perm.Clock.{fold-NotDeniedAfter}
use lamdis.Perm.Query.{pending_requests, effective_scopes}
use lamdis.Prelude.{eqb, ◌≤◌}
use lamdis.Prelude.Lists.{length, All, All-of_In}
use lamdis.Json.{end}

plan-approval :
    (st : State) (req : Decision) (scopes : List String) (request : String)
    → req.decision ≡ "approve"
    → asked_for req.principal (pending_requests st) req.scopes "" ≡ (scopes, request)
    → eqb (length scopes) 0 ≡ false
    → all_valid scopes ≡ true
    → plan st req ≡ write kind_grant (grant_fields req.principal request scopes end)
unfolding plan plan_grant
plan-approval st req scopes request q asked some_ valid = simp (q, asked, some_, valid)

module _ {S : Type 0} (c : Crypto) (laws : CryptoLaws c) (store : Store S)
    (keep_log : ThreadLog → S → S) (priv : List ℕ) (id ts : String)
    (parse_time : String → Option Time) where
  -- the log that a grant is written to gives its scopes
  pub IsWritten-granted :
      (l l' : ThreadLog) (e : Entry) (p request : String) (scopes : List String)
      → IsChained c l
      → IsWritten c l (owner_id c priv) kind_grant (grant_fields p request scopes end) e l'
      → IsSteward (fold parse_time l.thread l.entries) (owner_id c priv)
      → p ≢ ""
      → eqb (length scopes) 0 ≡ false
      → all_valid scopes ≡ true
      → lookup p (fold parse_time l.thread l.entries).delegations ≡ none
      → (now : Time)
      → All
          (λ s. has (effective_scopes (fold parse_time l.thread l'.entries) p now) s ≡ true)
          scopes
  IsWritten-granted l l' e p request scopes inv w owner named some_ valid own now =
      let st : State = fold parse_time l.thread l.entries in
      let after : fold parse_time l.thread (l.entries ++ e ∷ []) ≡ apply_grant parse_time st e =
        fold-last parse_time l.thread l.entries e w.authored.lane w.authored.thread
        ∙ apply-grant parse_time st e w.authored.kind in
      let early : last_denied st p ≤ l.lamport =
        fold-NotDeniedAfter parse_time l.thread l.lamport l.entries
          (All-of_In (λ x. x.lamport ≤ l.lamport) l.entries inv.clock) p in
      rw (w.entries, after)
        (apply_grant-has parse_time st e p request scopes
          (IsSteward-may_decide st e (owner_id c priv) owner w.authored.author w.authored.behalf)
          (ap decode_grant w.authored.body ∙ decode_grant-grant_fields p request scopes) named
          (omega (arith, early, w.authored.newer)) some_ valid own now)

  -- If the owner, as a steward and a person, approves somebody through the portal, with scopes of the
  -- decision or of the pending request that are not empty and all valid, on a thread whose log keeps
  -- the invariant and can take one more entry, and the person named is no delegated key, then the
  -- handler authors an entry that is last in a log which keeps the invariant and gives the person
  -- each of the scopes at any time, and hands it to the store, whose outcome is the reply.
  pub handle_decide-grants :
      (req : Decision) (scopes : List String) (request : String) (s s1 : S) (l : ThreadLog)
      → req.decision ≡ "approve"
      → asked_for req.principal
          (pending_requests (fold parse_time req.thread l.entries))
          req.scopes
          ""
        ≡ (scopes, request)
      → eqb (length scopes) 0 ≡ false
      → all_valid scopes ≡ true
      → req.thread ≢ ""
      → req.principal ≢ ""
      → store.thread req.thread s ≡ (ok l, s1)
      → IsChained c l
      → HasRoom l id
      → IsSteward (fold parse_time l.thread l.entries) (owner_id c priv)
      → lookup req.principal (fold parse_time l.thread l.entries).delegations ≡ none
      → (e : Entry) × (l' : ThreadLog) × (handle_decide c store keep_log priv id ts parse_time
            (some req)
            s
          ≡ (
            decide_reply (stored e (store.append_entries (e ∷ []) (keep_log l' s1)).0),
            (store.append_entries (e ∷ []) (keep_log l' s1)).1,
          ))
        × IsChained c l'
        × (l'.entries ≡ l.entries ++ e ∷ [])
        × ((now : Time)
            → All
                (λ x.
                  has (effective_scopes (fold parse_time l.thread l'.entries) req.principal now) x
                  ≡ true)
                scopes)
  handle_decide-grants req scopes request s s1 l q asked some_ valid at named found inv room owner
        own =
      let (e, l', run, w) =
        handle_decide-IsWritten c laws store keep_log priv id ts parse_time req kind_grant
          (grant_fields req.principal request scopes end) s s1 l
          (plan-approval (fold parse_time req.thread l.entries) req scopes request q asked some_
            valid)
          (inl refl) at named found inv room in
      (
        e,
        l',
        run,
        w.chained,
        w.entries,
        IsWritten-granted l l' e req.principal request scopes inv w owner named some_ valid own,
      )
