-- ===== src/Owner/CommandGrants.antt =====
-- The command line's grant takes effect.
use lamdis.Prelude.{ℕ, String, ◌≡◌, refl, true, Option, none, List, [], ◌∷◌, ◌++◌, inl}
use lamdis.Prelude.Eq.{string_eq}
use lamdis.Prelude.Map.{lookup, has}
use lamdis.Result.{Result, ok, err}
use lamdis.Store.{Store}
use lamdis.Log.Crypto.{Crypto, CryptoLaws}
use lamdis.Log.Entry.{Entry, kind_grant}
use lamdis.Log.Invariant.{IsChained}
use lamdis.Log.ThreadLog.{ThreadLog}
use lamdis.Perm.Apply.{fold}
use lamdis.Perm.State.{Time}
use lamdis.Owner.Authority.{HasRoom, owner_id, IsSteward, stored, author_and_store-IsWritten}
use lamdis.Owner.Control.{grant_fields}
use lamdis.Perm.Query.{effective_scopes}
use lamdis.Prelude.Lists.{All}
use lamdis.Json.{end}
use lamdis.Prelude.Map.{Map}
use lamdis.Exec.{continue, pure, lift, ◌>>=◌}
use lamdis.Owner.Grants.{IsWritten-granted}
use lamdis.Owner.Control.{grant_write}
use lamdis.Owner.Commands.{cmd_grant}
use lamdis.Owner.Resolve.{Peer, resolve_thread, resolve_who}
use lamdis.Owner.Resolved.{read_scopes-valid, resolve_who-ne}
use lamdis.Owner.Words.{read_scopes}

-- what is printed of the outcome
abbrev pub printed : Entry → Result (Unit {0}) → Result String
printed e (ok u) = ok e.id
printed e (err x) = err x

pub then_printed :
    {S : Type 0} (e : Entry) (r : Result Entry × S) (out : Result (Unit {0}) × S)
    → r ≡ (stored e out.0, out.1)
    → continue {S = S} r.0 (λ (x : Entry). pure {S = S} x.id) r.1 ≡ (printed e out.0, out.1)
then_printed e r (ok u, s) h = rw h refl
then_printed e r (err x, s) h = rw h refl

module _ {S : Type 0} (c : Crypto) (laws : CryptoLaws c) (store : Store S)
    (keep_log : ThreadLog → S → S) (priv : List ℕ) (id ts : String)
    (parse_time : String → Option Time) (now0 : Time) (lower upper : String → String)
    (peers : Map String Peer) where
  -- If the owner, as a steward and a person, grants scopes on the command line without a time to live,
  -- the references resolve to a thread and a person, the scopes read, the thread's log keeps the
  -- invariant and can take one more entry, and the person is no delegated key, then cmdGrant authors
  -- an entry that is last in a log which keeps the invariant and gives the person each of the scopes
  -- at any time, and hands it to the store, whose outcome it returns.
  pub cmd_grant-grants :
      (ref who_ref scopes_arg thread who : String) (scopes : List String) (s s1 s2 : S)
      (l : ThreadLog)
      → resolve_thread store lower upper ref s ≡ (ok thread, s1)
      → resolve_who peers who_ref ≡ ok who
      → read_scopes scopes_arg ≡ ok scopes
      → store.thread thread s1 ≡ (ok l, s2)
      → IsChained c l
      → HasRoom l id
      → IsSteward (fold parse_time l.thread l.entries) (owner_id c priv)
      → lookup who (fold parse_time l.thread l.entries).delegations ≡ none
      → (e : Entry) × (l' : ThreadLog) × (cmd_grant c store keep_log priv id ts parse_time now0
            lower upper peers ref who_ref scopes_arg none s
          ≡ (
            printed e (store.append_entries (e ∷ []) (keep_log l' s2)).0,
            (store.append_entries (e ∷ []) (keep_log l' s2)).1,
          ))
        × IsChained c l'
        × (l'.entries ≡ l.entries ++ e ∷ [])
        × ((now : Time)
            → All
                (λ x. has (effective_scopes (fold parse_time l.thread l'.entries) who now) x ≡ true)
                scopes)
  unfolding cmd_grant grant_write lamdis.Owner.Commands.ttl_fields
  cmd_grant-grants ref who_ref scopes_arg thread who scopes s s1 s2 l at named read found inv room
        owner own =
      let (valid, some_) = read_scopes-valid scopes_arg scopes read in
      let (e, l', run, w) =
        author_and_store-IsWritten c laws store keep_log priv id ts l kind_grant
          (grant_fields who "" scopes end) inv room (inl refl) in
      (
        e,
        l',
        rw (at, ◌>>=◌)
            (rw (named, lift)
              (rw read (
                rw found
                  (then_printed e _ (store.append_entries (e ∷ []) (keep_log l' s2)) (run s2))))),
        w.chained,
        w.entries,
        IsWritten-granted c laws store keep_log priv id ts parse_time l l' e who "" scopes inv w
            owner (resolve_who-ne peers who_ref who named) some_ valid own,
      )
