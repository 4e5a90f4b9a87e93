-- ===== src/Mcp/Posted.antt =====
-- What the tool post_entry can write: entries that no fold of the control lane reads.
use lamdis.Prelude.{
  Option, ℕ, String, ◌≡◌, refl, ap, ◌∙◌, false, List, [], ◌∷◌, ◌++◌, inl, inr, Bool-cases,
}
use lamdis.Prelude.Eq.{◌==◌, string_eq}
use lamdis.Json.{Fields, str, field, end}
use lamdis.Result.{Result, ok, err}
use lamdis.Exec.{continue, pure, lift, ◌>>=◌}
use lamdis.Store.{Store}
use lamdis.Log.Authored.{CanAuthor, IsAuthored, author_append-IsAuthored}
use lamdis.Log.Crypto.{Crypto, CryptoLaws}
use lamdis.Log.Entry.{Entry, lane_control, lane_summary, lane_content, kind_message, kind_summary}
use lamdis.Log.Invariant.{IsChained}
use lamdis.Log.LastEntry.{insert_entry-last}
use lamdis.Log.Pattern.{is_kind}
use lamdis.Log.ThreadLog.{ThreadLog, admit}
use lamdis.Perm.Apply.{fold, fold_from, fold_step}
use lamdis.Perm.Cases.{fold_from-append}
use lamdis.Perm.State.{Time}
use lamdis.Owner.Authority.{HasRoom, owner_id}
use lamdis.Mcp.Tools.{post_draft, post_entry}
use lamdis.Mcp.Words.{concat}

-- the answer of the tool
abbrev pub posted : Entry → String → Result (Unit {0}) → Result String
posted e lane (ok u) = ok (concat ("posted " ∷ e.id ∷ " to " ∷ lane ∷ " lane" ∷ []))
posted e lane (err x) = err x

abbrev pub text_fields : String → Fields
text_fields text = field "text" (str text) end

pub post_draft-CanAuthor :
    (l : ThreadLog) (id lane text : String) → HasRoom l id → CanAuthor l id (post_draft lane text)
unfolding post_draft is_kind lamdis.Log.Envelope.is_reserved lamdis.Log.Entry.core_kind
    lamdis.Log.Entry.valid_lane
post_draft-CanAuthor l id lane text room = record {
  thread = room.thread;
  id = room.id;
  fresh = room.fresh;
  kind = elim (Bool-cases (lane == "summary")) [ inl q ↦ rw q refl | inr q ↦ rw q refl ];
  known = elim (Bool-cases (lane == "summary")) [ inl q ↦ rw q refl | inr q ↦ rw q refl ];
  lane = elim (Bool-cases (lane == "summary")) [ inl q ↦ rw q refl | inr q ↦ rw q refl ];
  behalf = inl refl;
  fields = text_fields text;
  body = refl;
  clock = room.clock;
  number = room.number;
}

pub post_draft-lane : (lane text : String) → ((post_draft lane text).lane == lane_control) ≡ false
unfolding post_draft
post_draft-lane lane text = elim (Bool-cases (lane == "summary")) [
  | inl q ↦ rw q refl
  | inr q ↦ rw q refl
]

-- an entry of another lane at the end leaves the fold
fold_other_lane :
    (parse_time : String → Option Time) (thread : String) (es : List Entry) (e : Entry)
    → (e.lane == lane_control) ≡ false
    → fold parse_time thread (es ++ e ∷ []) ≡ fold parse_time thread es
unfolding fold fold_from fold_step
fold_other_lane parse_time thread es e h =
    fold_from-append parse_time thread _ es (e ∷ []) ∙ rw h refl

-- An entry that the node's key wrote at the end of a log, which changes no thread's state.
pub record IsPosted (c : Crypto) (l : ThreadLog) (self lane text : String) (e : Entry)
    (l' : ThreadLog) : Type 0 where
  pub authored : IsAuthored l self (post_draft lane text) (text_fields text) e
  pub chained : IsChained c l'
  pub entries : l'.entries ≡ l.entries ++ e ∷ []
  pub same :
      (parse_time : String → Option Time) (thread : String)
      → fold parse_time thread l'.entries ≡ fold parse_time thread l.entries

-- On a thread whose log satisfies the invariant and has room for one more entry with the fresh id,
-- the tool post_entry writes one entry, signed with the node's key, at the end of the log, whatever
-- lane and text the agent gives: it answers with its id where the store takes the entry and with the
-- store's error otherwise. The log after it satisfies the invariant, and the fold of every thread
-- over it is the fold before: who is a steward, who is granted what and which requests are pending
-- stay as they are.
pub post_entry-IsPosted :
    {S : Type 0} (c : Crypto) (laws : CryptoLaws c) (store : Store S) (keep_log : ThreadLog → S → S)
    (priv : List ℕ) (id ts thread lane text : String) (s s1 : S) (l : ThreadLog)
    → store.thread thread s ≡ (ok l, s1)
    → IsChained c l
    → HasRoom l id
    → (e : Entry) × (l' : ThreadLog) × (post_entry c store keep_log priv id ts thread lane text s
        ≡ (
          posted e (post_draft lane text).lane (store.append_entries (e ∷ []) (keep_log l' s1)).0,
          (store.append_entries (e ∷ []) (keep_log l' s1)).1,
        ))
      × IsPosted c l (owner_id c priv) lane text e l'
unfolding post_entry post_draft-CanAuthor
post_entry-IsPosted {S} c laws store keep_log priv id ts thread lane text s s1 l found inv room =
    let can : CanAuthor l id (post_draft lane text) = post_draft-CanAuthor l id lane text room in
    let (h, e, made, chained, own) =
      author_append-IsAuthored c laws priv l inv id ts (post_draft lane text) can in
    let entries : (admit l e h).entries ≡ l.entries ++ e ∷ [] =
      unfold admit in insert_entry-last c l e inv own.newer in
    let other : (e.lane == lane_control) ≡ false =
      ap (λ (x : String). x == lane_control) own.lane ∙ post_draft-lane lane text in
    (
      e,
      admit l e h,
      rw (found, made, post_entry, lift, ◌>>=◌) (then_posted e _),
      record {
        authored = own;
        chained = chained;
        entries = entries;
        same = λ parse_time t.
            ap (λ (es : List Entry). fold parse_time t es) entries
            ∙ fold_other_lane parse_time t l.entries e other;
      },
    )
  where
    then_posted :
        (e : Entry) (r : Result (Unit {0}) × S)
        → continue {S = S} r.0
            (λ _.
              pure {S = S}
                (concat ("posted " ∷ e.id ∷ " to " ∷ (post_draft lane text).lane ∷ " lane" ∷ [])))
            r.1
          ≡ (posted e (post_draft lane text).lane r.0, r.1)
    then_posted e (ok u, s) = refl
    then_posted e (err x, s) = refl
