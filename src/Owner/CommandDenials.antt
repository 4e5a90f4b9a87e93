-- ===== src/Owner/CommandDenials.antt =====
-- The command line's deny and revoke take effect.
use lamdis.Prelude.{
  ℕ, String, ◌≡◌, refl, false, Option, some, none, List, [], ◌∷◌, ◌++◌, inl, inr, ◌⊎◌,
}
use lamdis.Prelude.Eq.{string_eq}
use lamdis.Prelude.Map.{Map, lookup, has}
use lamdis.Result.{Result, ok}
use lamdis.Exec.{Exec, lift, ◌>>=◌}
use lamdis.Store.{Store}
use lamdis.Log.Crypto.{Crypto, CryptoLaws}
use lamdis.Log.Entry.{Entry, kind_deny, kind_revoke}
use lamdis.Log.Invariant.{IsChained}
use lamdis.Log.ThreadLog.{ThreadLog}
use lamdis.Perm.Apply.{fold}
use lamdis.Perm.Query.{lanes}
use lamdis.Perm.State.{Time}
use lamdis.Owner.Authority.{HasRoom, owner_id, IsSteward, author_and_store-IsWritten}
use lamdis.Owner.CommandGrants.{printed, then_printed}
use lamdis.Owner.Control.{denial_fields, grant_write}
use lamdis.Owner.Denies.{IsWritten-denied}
use lamdis.Owner.Invocation.{invocation, cmd_deny, cmd_revoke, run_denial}
use lamdis.Owner.Resolve.{Peer, resolve_thread, resolve_who}
use lamdis.Owner.Resolved.{resolve_who-ne}

-- The run authors `e`, a denial of the kind by the owner, last in a log that gives `who` nothing, and hands
-- it to the store.
pub record IsDenied {S : Type 0} (c : Crypto) (store : Store S) (keep_log : ThreadLog → S → S)
    (parse_time : String → Option Time) (owner kind who : String) (l : ThreadLog) (s : S)
    (run : Result String × S) : Type 0 where
  pub entry : Entry
  pub log : ThreadLog
  pub kept : IsChained c log
  pub last : log.entries ≡ l.entries ++ entry ∷ []
  pub kind_of : entry.kind ≡ kind
  pub author : entry.author ≡ owner
  pub nothing : (now : Time) → lanes (fold parse_time l.thread log.entries) who now ≡ []
  pub ran : run ≡ (
    printed entry (store.append_entries (entry ∷ []) (keep_log log s)).0,
    (store.append_entries (entry ∷ []) (keep_log log s)).1,
  )

module _ {S : Type 0} (c : Crypto) (laws : CryptoLaws c) (store : Store S)
    (keep_log : ThreadLog → S → S) (priv : List ℕ) (id ts : String)
    (parse_time : String → Option Time) (lower upper : String → String)
    (peers : Map String Peer) where
  written-IsDenied :
      (kind thread who : String) (s1 s2 : S) (l : ThreadLog)
      → (kind ≡ kind_deny) ⊎ (kind ≡ kind_revoke)
      → store.thread thread s1 ≡ (ok l, s2)
      → IsChained c l
      → HasRoom l id
      → IsSteward (fold parse_time l.thread l.entries) (owner_id c priv)
      → has (fold parse_time l.thread l.entries).stewards who ≡ false
      → lookup who (fold parse_time l.thread l.entries).delegations ≡ none
      → ¬ (who ≡ "")
      → IsDenied c store keep_log parse_time
          (owner_id c priv)
          kind
          who
          l
          s2
          (grant_write c store keep_log priv id ts kind thread (denial_fields who) s1)
  unfolding grant_write
  written-IsDenied kind thread who s1 s2 l which found inv room owner plain own some_ =
      let (e, l', run, w) =
        author_and_store-IsWritten c laws store keep_log priv id ts l kind (denial_fields who) inv
          room (inr which) in
      record {
        entry = e;
        log = l';
        kept = w.chained;
        last = w.entries;
        kind_of = w.authored.kind;
        author = w.authored.author;
        nothing =
            IsWritten-denied c laws store keep_log priv id ts parse_time l l' e kind who which w
              owner some_ plain own;
        ran =
            rw (found, grant_write, ◌>>=◌)
              (then_printed e _ (store.append_entries (e ∷ []) (keep_log l' s2)) (run s2));
      }

  -- If the program is called with `deny` or `revoke`, a thread's reference and a person's, the key
  -- loads, the references resolve, the owner is a steward and a person, the thread's log keeps the
  -- invariant and can take one more entry, and the person named is no steward and no delegated key,
  -- then the command authors an entry of the owner, a core.deny for `deny` and a core.revoke for
  -- `revoke`, that is last in a log which keeps the invariant and gives the person no lane at any time,
  -- and hands it to the store, whose outcome it returns.
  pub run_denial-IsDenied :
      (word kind ref who_ref thread who : String) (s s1 s2 : S) (l : ThreadLog)
      → ((word ≡ "deny") × (kind ≡ "core.deny")) ⊎ ((word ≡ "revoke") × (kind ≡ "core.revoke"))
      → resolve_thread store lower upper ref s ≡ (ok thread, s1)
      → resolve_who peers who_ref ≡ ok who
      → store.thread thread s1 ≡ (ok l, s2)
      → IsChained c l
      → HasRoom l id
      → IsSteward (fold parse_time l.thread l.entries) (owner_id c priv)
      → has (fold parse_time l.thread l.entries).stewards who ≡ false
      → lookup who (fold parse_time l.thread l.entries).delegations ≡ none
      → (run : Exec S String) × (run_denial c store keep_log
            (ok priv)
            id
            ts
            lower
            upper
            peers
            (invocation (word ∷ ref ∷ who_ref ∷ []))
          ≡ some run)
        × IsDenied c store keep_log parse_time (owner_id c priv) kind who l s2 (run s)
  unfolding run_denial cmd_deny cmd_revoke invocation lamdis.Owner.Invocation.two_arguments
  run_denial-IsDenied word kind ref who_ref thread who s s1 s2 l (inl (q, k)) at named found inv
        room owner plain own =
      (
        cmd_deny c store keep_log (ok priv) id ts lower upper peers ref who_ref,
        rw q refl,
        rw (k, at, named, cmd_deny, ◌>>=◌, lift)
            (written-IsDenied kind_deny thread who s1 s2 l (inl refl) found inv room owner plain own
              (resolve_who-ne peers who_ref who named)),
      )
  run_denial-IsDenied word kind ref who_ref thread who s s1 s2 l (inr (q, k)) at named found inv
        room owner plain own =
      (
        cmd_revoke c store keep_log (ok priv) id ts lower upper peers ref who_ref,
        rw q refl,
        rw (k, at, named, cmd_revoke, ◌>>=◌, lift)
            (written-IsDenied kind_revoke thread who s1 s2 l (inr refl) found inv room owner plain
              own (resolve_who-ne peers who_ref who named)),
      )
