-- ===== src/Store/NewRow.antt =====
-- One round of AppendEntries: the cache it leaves, and what it reports as stored is in a row.
use lamdis.Prelude.{
  ℕ, ◌<◌, String, ◌≡◌, refl, sym, ap, ◌∙◌, subst, inl, inr, true, false, none, some, List, [], ◌∷◌,
  ◌++◌, arith, ltb, Bool-cases,
}
use lamdis.Prelude.Eq.{◌==◌, string_eq, beq_refl}
use lamdis.Prelude.Lists.{In, here, there, In-append, In-append_left, In-append_right}
use lamdis.Prelude.Map.{lookup, lookup-insert}
use lamdis.Result.{ok}
use lamdis.Log.ChainKey.{ChainKey}
use lamdis.Log.Crypto.{Crypto}
use lamdis.Log.Entry.{Entry}
use lamdis.Log.Invariant.{IsChained}
use lamdis.Log.Insertion.{of_insert_entry, In-insert_entry, In-insert_entry_old}
use lamdis.Log.ThreadLog.{ThreadLog, admit, insert_entry}
use lamdis.Store.Sqlite.{
  Row, CachedLog, Sqlite, max_rid, next_rid, entries_of, id_stored, place_stored, put_log,
  update_log, note_rid, insert_row, refuses,
}
use lamdis.Store.Rows.{
  max_rid_lt, max_rid-append, entries_of-append, In-entries_of, id_stored-In, id_stored-of_In,
  place_stored-In,
}
use lamdis.Store.Coherent.{IsLogOf, IsCoherent, IsLogOf-subst}

abbrev pub new_row : Sqlite → Entry → Row
new_row s e = record { rid = next_rid s.rows; entry = e }

-- the state with one more row, which the cache of the row's thread holds
abbrev pub with_row : Entry → ThreadLog → Sqlite → Sqlite
with_row e l s =
    put_log e.thread l (next_rid s.rows) (record (put_log e.thread l (max_rid e.thread s.rows) s) {
      rows = s.rows ++ new_row s e ∷ [];
    })

other_entries :
    (s : Sqlite) (e : Entry) (t : String)
    → (e.thread == t) ≡ false
    → entries_of t (s.rows ++ new_row s e ∷ []) ≡ entries_of t s.rows
other_entries s e t q = entries_of-append t s.rows (new_row s e) ∙ rw q refl

other_rid :
    (s : Sqlite) (e : Entry) (t : String)
    → (e.thread == t) ≡ false
    → max_rid t (s.rows ++ new_row s e ∷ []) ≡ max_rid t s.rows
other_rid s e t q = max_rid-append t s.rows (new_row s e) (max_rid_lt t s.rows) ∙ rw q refl

pub own_entries :
    (s : Sqlite) (e : Entry)
    → entries_of e.thread (s.rows ++ new_row s e ∷ []) ≡ entries_of e.thread s.rows ++ e ∷ []
own_entries s e =
    entries_of-append e.thread s.rows (new_row s e) ∙ rw (beq_refl {K = String} e.thread) refl

own_rid : (s : Sqlite) (e : Entry) → max_rid e.thread (s.rows ++ new_row s e ∷ []) ≡ next_rid s.rows
own_rid s e =
    max_rid-append e.thread s.rows (new_row s e) (max_rid_lt e.thread s.rows)
    ∙ rw (beq_refl {K = String} e.thread) refl

some_eq : {x y : CachedLog} → some x ≡ some y → x ≡ y
some_eq h = cc

-- A log of the thread's rows and the new row's entry makes the state with the row coherent.
module _ (c : Crypto) (s : Sqlite) (e : Entry) (l : ThreadLog) (inv : IsCoherent c s)
    (r : IsLogOf c (s.rows ++ new_row s e ∷ []) e.thread l) where
  rows' : List Row
  rows' = s.rows ++ new_row s e ∷ []

  newest : CachedLog
  newest = record { log = l; max_rid = next_rid s.rows }

  with_row-logged : (t : String) → (m : ThreadLog) × IsLogOf c rows' t m
  unfolding rows'
  with_row-logged t = elim (Bool-cases (e.thread == t)) [
    | inl q ↦ (
      l,
      subst (λ (x : String). IsLogOf c (s.rows ++ new_row s e ∷ []) x l)
          ((string_eq.beq_iff e.thread t).0 q) r,
    )
    | inr q ↦
        let (m, old) = inv.logged t in
        (m, IsLogOf-subst c s.rows (s.rows ++ new_row s e ∷ []) t m (other_entries s e t q) old)
  ]

  own_cached :
      (t : String) (cl : CachedLog)
      → e.thread ≡ t
      → newest ≡ cl
      → IsLogOf c rows' t cl.log × (cl.max_rid ≡ max_rid t rows')
  unfolding newest rows'
  own_cached t cl same at = (
    subst (λ (x : String). IsLogOf c (s.rows ++ new_row s e ∷ []) x cl.log) same
        (subst (λ (x : CachedLog). IsLogOf c (s.rows ++ new_row s e ∷ []) e.thread x.log) at r),
    ap (λ (x : CachedLog). x.max_rid) (sym at)
        ∙ sym (own_rid s e)
        ∙ ap (λ (x : String). max_rid x (s.rows ++ new_row s e ∷ [])) same,
  )

  other_cached :
      (t : String) (cl : CachedLog)
      → (e.thread == t) ≡ false
      → lookup t s.logs ≡ some cl
      → IsLogOf c rows' t cl.log × (cl.max_rid ≡ max_rid t rows')
  unfolding rows'
  other_cached t cl q h =
      let (log, rid) = inv.cached t cl h in
      (
        IsLogOf-subst c s.rows (s.rows ++ new_row s e ∷ []) t cl.log (other_entries s e t q) log,
        rid ∙ sym (other_rid s e t q),
      )

  pub with_row-IsCoherent : IsCoherent c (with_row e l s)
  unfolding put_log rows' newest
  with_row-IsCoherent = record {
    logged = with_row-logged;
    cached = λ t cl h. elim (Bool-cases (e.thread == t)) [
      | inl q ↦
          own_cached t cl ((string_eq.beq_iff e.thread t).0 q)
            (some_eq (rw (lookup-insert, q) at h))
      | inr q ↦ other_cached t cl q (rw (lookup-insert, lookup-insert, q) at h)
    ];
  }

pub update_log-put_log :
    (c : Crypto) (s : Sqlite) (t : String) (l l' : ThreadLog) (n : ℕ)
    → lookup t s.logs ≡ some (record { log = l; max_rid = n })
    → update_log c t l' s ≡ put_log t l' n s
unfolding update_log put_log
update_log-put_log c s t l l' n h = rw (h, update_log) refl

-- the entry's row stands, and the cache has noted it
pub insert_row-with_row :
    (c : Crypto) (s : Sqlite) (e : Entry) (l : ThreadLog)
    → id_stored e.id s.rows ≡ false
    → place_stored e s.rows ≡ false
    → refuses s e ≡ false
    → insert_row c e (put_log e.thread l (max_rid e.thread s.rows) s) ≡ (ok tt, with_row e l s)
unfolding insert_row note_rid put_log refuses
insert_row-with_row c s e l q p takes =
    let low : max_rid e.thread s.rows < next_rid s.rows = max_rid_lt e.thread s.rows in
    let higher : ltb (max_rid e.thread s.rows) (next_rid s.rows) ≡ true = ground (arith, low) in
    let found : lookup e.thread (put_log e.thread l (max_rid e.thread s.rows) s).logs
        ≡ some (record { log = l; max_rid = max_rid e.thread s.rows }) =
      rw (lookup-insert, beq_refl {K = String} e.thread) refl in
    rw (takes, q, p, note_rid, found, higher) refl

-- A place in a chain is free if a log with the entry holds its thread's rows.
pub place_free :
    (c : Crypto) (s : Sqlite) (e : Entry) (l : ThreadLog)
    → IsChained c l
    → In e l.entries
    → ((x : Entry) → In x (entries_of e.thread s.rows) → In x l.entries)
    → id_stored e.id s.rows ≡ false
    → place_stored e s.rows ≡ false
place_free c s e l chained held into fresh = elim (Bool-cases (place_stored e s.rows)) [
  | inr q ↦ q
  | inl q ↦
      let (r, i, k, n) = place_stored-In e s.rows q in
      let at : In r.entry l.entries =
        into r.entry (In-entries_of e.thread r s.rows i (ap (λ (x : ChainKey). x.thread) k)) in
      let same : r.entry ≡ e = chained.unforked r.entry e at held k n in
      absurd (cc (fresh, id_stored-of_In e.id r s.rows i (ap (λ (x : Entry). x.id) same)))
]

-- An id that the log does not hold is not stored, where an id is of one thread.
pub id_free :
    (c : Crypto) (s : Sqlite) (e : Entry) (l : ThreadLog)
    → IsLogOf c s.rows e.thread l
    → ((r : Row) → In r s.rows → r.entry.id ≡ e.id → r.entry.thread ≡ e.thread)
    → lookup e.id l.by_id ≡ none
    → id_stored e.id s.rows ≡ false
id_free c s e l r own fresh = elim (Bool-cases (id_stored e.id s.rows)) [
  | inr q ↦ q
  | inl q ↦
      let (x, i, p) = id_stored-In e.id s.rows q in
      let held : In x.entry l.entries =
        r.into x.entry (In-entries_of e.thread x s.rows i (own x i p)) in
      absurd (cc (r.chained.indexed x.entry held, ap (λ (k : String). lookup k l.by_id) p, fresh))
]

-- the log that admits the entry is the log of the rows with its row
pub admitted-IsLogOf :
    (c : Crypto) (s : Sqlite) (e : Entry) (l l' : ThreadLog) (d : String)
    → IsLogOf c s.rows e.thread l
    → IsChained c l'
    → admit l e d ≡ l'
    → IsLogOf c (s.rows ++ new_row s e ∷ []) e.thread l'
unfolding admit
admitted-IsLogOf c s e l l' d r chained grown = record {
  named = ap (λ (x : ThreadLog). x.thread) (sym grown) ∙ r.named;
  chained = chained;
  from = λ x i.
      subst (In x) (sym (own_entries s e))
        (elim (of_insert_entry x e l.entries (subst (In x) entries i)) [
          | inl q ↦ In-append_right x (entries_of e.thread s.rows) (e ∷ []) (here q)
          | inr j ↦ In-append_left x (entries_of e.thread s.rows) (e ∷ []) (r.from x j)
        ]);
  into = λ x i.
      subst (In x) (sym entries)
        (elim (In-append x (entries_of e.thread s.rows) (e ∷ [])
          (subst (In x) (own_entries s e) i)) [
            | inl j ↦ In-insert_entry_old x e l.entries (r.into x j)
            | inr (here q) ↦
                subst (λ (z : Entry). In z (insert_entry e l.entries)) (sym q)
                  (In-insert_entry e l.entries)
            | inr (there j) ↦ elim j [ ]
          ]);
}
  where
    entries : l'.entries ≡ insert_entry e l.entries
    entries = ap (λ (x : ThreadLog). x.entries) (sym grown)
