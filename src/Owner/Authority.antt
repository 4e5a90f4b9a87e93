-- ===== src/Owner/Authority.antt =====
-- What it takes to write a control entry, and what it leaves in the log and in its fold.
use Prim.Native.String.{◌++◌ as append_text}
use lamdis.Prelude.{
  Option, ℕ, suc, ◌<◌, String, ◌≡◌, refl, ◌∙◌, true, none, some, List, [], ◌∷◌, ◌++◌, u64_mod, inl,
  inr, ◌⊎◌,
}
use lamdis.Prelude.Eq.{string_eq}
use lamdis.Prelude.Map.{lookup, has}
use lamdis.Json.{Fields}
use lamdis.Result.{Result, ok, err}
use lamdis.Exec.{continue, pure, lift, ◌>>=◌}
use lamdis.Store.{Store}
use lamdis.Log.Authored.{CanAuthor, IsAuthored, author_append-IsAuthored}
use lamdis.Log.Base32.{encode}
use lamdis.Log.ChainKey.{ChainKey, chain_key_eq}
use lamdis.Log.Crypto.{Crypto, CryptoLaws}
use lamdis.Log.Entry.{Entry, lane_control, kind_grant, kind_deny, kind_revoke}
use lamdis.Log.Identity.{principal_prefix}
use lamdis.Log.Invariant.{IsChained}
use lamdis.Log.LastEntry.{insert_entry-last}
use lamdis.Log.Pattern.{is_ulid, is_kind}
use lamdis.Log.ThreadLog.{ThreadLog, ChainHead, admit}
use lamdis.Perm.Apply.{may_decide, person_signed, apply, fold, fold_from}
use lamdis.Perm.Cases.{fold_from-append, fold_step-control}
use lamdis.Perm.State.{Time, State}
use lamdis.Owner.Control.{control_draft, author_and_store}

-- The log takes one more entry with this id: the numbers do not wrap, and the id is new.
pub record HasRoom (l : ThreadLog) (ulid : String) : Type 0 where
  pub thread : is_ulid l.thread ≡ true
  pub id : is_ulid ulid ≡ true
  pub fresh : lookup ulid l.by_id ≡ none
  pub clock : suc l.lamport < u64_mod
  pub number : (k : ChainKey) (h : ChainHead) → lookup k l.heads ≡ some h → suc h.seq < u64_mod

abbrev pub IsDecision : String → Type 0
IsDecision kind = (kind ≡ kind_grant) ⊎ (kind ≡ kind_deny) ⊎ (kind ≡ kind_revoke)

pub control-CanAuthor :
    (l : ThreadLog) (id kind : String) (fields : Fields)
    → HasRoom l id
    → IsDecision kind
    → CanAuthor l id (control_draft kind fields)
unfolding is_kind lamdis.Log.Envelope.is_reserved lamdis.Log.Entry.core_kind
    lamdis.Log.Entry.valid_lane
control-CanAuthor l id kind fields room which = record {
  thread = room.thread;
  id = room.id;
  fresh = room.fresh;
  kind = elim which [ inl q ↦ rw q refl | inr (inl q) ↦ rw q refl | inr (inr q) ↦ rw q refl ];
  known = elim which [ inl q ↦ rw q refl | inr (inl q) ↦ rw q refl | inr (inr q) ↦ rw q refl ];
  lane = refl;
  behalf = inl refl;
  fields = fields;
  body = refl;
  clock = room.clock;
  number = room.number;
}

-- the principal of the owner's key
abbrev pub owner_id : Crypto → List ℕ → String
owner_id c priv = append_text principal_prefix (encode (c.public priv))

-- The owner is a steward, and decides as a person.
pub record IsSteward (st : State) (self : String) : Type 0 where
  pub steward : has st.stewards self ≡ true
  pub person : lookup self st.delegations ≡ none

pub IsSteward-may_decide :
    (st : State) (e : Entry) (self : String)
    → IsSteward st self
    → e.author ≡ self
    → e.on_behalf_of ≡ ""
    → may_decide st e ≡ true
unfolding person_signed
IsSteward-may_decide st e self s a b = rw a (rw s.steward (rw b (rw s.person refl)))

-- the outcome of storing an authored entry
abbrev pub stored : Entry → Result (Unit {0}) → Result Entry
stored e (ok u) = ok e
stored e (err x) = err x

-- An entry, the log that it is the last entry of, and the log before.
pub record IsWritten (c : Crypto) (l : ThreadLog) (self kind : String) (fields : Fields) (e : Entry)
    (l' : ThreadLog) : Type 0 where
  pub authored : IsAuthored l self (control_draft kind fields) fields e
  pub chained : IsChained c l'
  pub entries : l'.entries ≡ l.entries ++ e ∷ []

module _ {S : Type 0} (c : Crypto) (laws : CryptoLaws c) (store : Store S)
    (keep_log : ThreadLog → S → S) (priv : List ℕ) (id ts : String) where
  pub author_and_store-IsWritten :
      (l : ThreadLog) (kind : String) (fields : Fields)
      → IsChained c l
      → HasRoom l id
      → IsDecision kind
      → (e : Entry) × (l' : ThreadLog) × ((s : S)
          → author_and_store c store keep_log priv id ts l kind fields s ≡ (
            stored e (store.append_entries (e ∷ []) (keep_log l' s)).0,
            (store.append_entries (e ∷ []) (keep_log l' s)).1,
          ))
        × IsWritten c l (owner_id c priv) kind fields e l'
  unfolding control-CanAuthor author_and_store
  author_and_store-IsWritten l kind fields inv room which =
      let can : CanAuthor l id (control_draft kind fields) =
        control-CanAuthor l id kind fields room which in
      let (h, e, made, chained, own) =
        author_append-IsAuthored c laws priv l inv id ts (control_draft kind fields) can in
      (
        e,
        admit l e h,
        λ s. rw (made, lift, ◌>>=◌) (then_stored e _),
        record {
          authored = own;
          chained = chained;
          entries = (unfold admit in insert_entry-last c l e inv own.newer);
        },
      )
    where
      then_stored :
          (e : Entry) (r : Result (Unit {0}) × S)
          → continue {S = S} r.0 (λ _. pure {S = S} e) r.1 ≡ (stored e r.0, r.1)
      then_stored e (ok u, s) = refl
      then_stored e (err x, s) = refl

-- the fold of a log with one more decision
pub fold-last :
    (parse_time : String → Option Time) (thread : String) (es : List Entry) (e : Entry)
    → e.lane ≡ lane_control
    → e.thread ≡ thread
    → fold parse_time thread (es ++ e ∷ []) ≡ apply parse_time (fold parse_time thread es) e
unfolding fold fold_from
fold-last parse_time thread es e lane at =
    fold_from-append parse_time thread _ es (e ∷ [])
    ∙ fold_step-control parse_time thread _ e lane at
