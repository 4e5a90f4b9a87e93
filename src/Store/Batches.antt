-- ===== src/Store/Batches.antt =====
-- AppendEntries over a batch: the loop's rounds together.
use lamdis.Prelude.{◌<◌, ◌≡◌, ◌⊎◌, refl, sym, ap, ◌∙◌, subst, inl, inr, List, [], ◌∷◌, u64_mod}
use lamdis.Prelude.Lists.{In, here, there, All}
use lamdis.Result.{ok, err, not_stored, Error, Result, Result-cases, err-ne-ok}
use lamdis.Exec.{◌>>=◌, ◌>>◌}
use lamdis.Log.Crypto.{Crypto}
use lamdis.Log.Entry.{Entry}
use lamdis.Store.Sqlite.{Row, Sqlite, append_entry, append_entries}
use lamdis.Store.Rows.{In-entries_of, entries_of-Stored}
use lamdis.Store.Coherent.{IsCoherent, HasLogs, restart, restart-HasLogs}
use lamdis.Store.Durable.{IsStored, IsRound, append_entry-IsRound}

-- Every id of the batch is of one thread, in the batch and in the rows.
pub record OwnIds (es : List Entry) (rows : List Row) : Type 0 where
  pub batch : (a b : Entry) → In a es → In b es → a.id ≡ b.id → a.thread ≡ b.thread
  pub table :
      (e : Entry) → In e es → (r : Row) → In r rows → r.entry.id ≡ e.id → r.entry.thread ≡ e.thread

pub record IsBatch (c : Crypto) (es : List Entry) (s : Sqlite) (r : Result (Unit {0}) × Sqlite)
    : Type 0 where
  pub coherent : (r.0 ≡ err not_stored) ⊎ IsCoherent c r.1
  pub logged : HasLogs c r.1.rows
  pub kept : (x : Row) → In x s.rows → In x r.1.rows
  pub stored : r.0 ≡ ok tt → (e : Entry) → In e es → IsStored c r.1 e

-- a call that returned without an error left the cache coherent
pub IsCoherent-after :
    {c : Crypto} {r : Result (Unit {0}) × Sqlite}
    → (r.0 ≡ err not_stored) ⊎ IsCoherent c r.1
    → r.0 ≡ ok tt
    → IsCoherent c r.1
IsCoherent-after (inl q) h = absurd (err-ne-ok not_stored tt (sym q ∙ h))
IsCoherent-after (inr good) h = good

still-IsStored :
    (c : Crypto) (s s' : Sqlite) (e : Entry)
    → ((x : Row) → In x s.rows → In x s'.rows)
    → IsStored c s e
    → IsStored c s' e
still-IsStored c s s' e kept st =
    let at = entries_of-Stored e.thread s.rows st.entry st.held in
    record {
      entry = st.entry;
      held =
          subst (λ (x : Entry). In x _) at.entry
            (In-entries_of e.thread at.row s'.rows (kept at.row at.held)
              (ap (λ (x : Entry). x.thread) at.entry ∙ at.at));
      name = st.name;
      digest = st.digest;
    }

module _ (c : Crypto) (e : Entry) (es : List Entry) (s : Sqlite) (own : OwnIds (e ∷ es) s.rows)
    (r : IsRound c s e (append_entry c e s)) where
  later-OwnIds : OwnIds es (append_entry c e s).1.rows
  later-OwnIds = record {
    batch = λ a b i j q. own.batch a b (there i) (there j) q;
    table = λ x i row j q. elim (r.grown row j) [
      | inl k ↦ own.table x (there i) row k q
      | inr same ↦
          ap (λ (y : Entry). y.thread) same
          ∙ own.batch e x (here refl) (there i) (ap (λ (y : Entry). y.id) (sym same) ∙ q)
    ];
  }

  failed-IsBatch :
      (x : Error)
      → (append_entry c e s).0 ≡ err x
      → IsBatch c (e ∷ es) s (append_entries c (e ∷ es) s)
  unfolding append_entries
  failed-IsBatch x h =
      rw (append_entries, ◌>>◌, ◌>>=◌, h)
        (record {
          coherent = elim r.coherent [ inl q ↦ inl (sym h ∙ q) | inr good ↦ inr good ];
          logged = r.logged;
          kept = r.kept;
          stored = λ q. cc;
        })

  passed-IsBatch :
      (append_entry c e s).0 ≡ ok tt
      → IsBatch c es (append_entry c e s).1 (append_entries c es (append_entry c e s).1)
      → IsBatch c (e ∷ es) s (append_entries c (e ∷ es) s)
  unfolding append_entries
  passed-IsBatch h b =
      rw (append_entries, ◌>>◌, ◌>>=◌, h)
        (record {
          coherent = b.coherent;
          logged = b.logged;
          kept = λ x i. b.kept x (r.kept x i);
          stored = λ q x i. elim i [
            | here same ↦
                subst (IsStored c (append_entries c es (append_entry c e s).1).1) (sym same) (
                  still-IsStored c (append_entry c e s).1
                    (append_entries c es (append_entry c e s).1).1 e b.kept (r.stored h))
            | there j ↦ b.stored q x j
          ];
        })

pub append_entries-IsBatch :
    (c : Crypto) (es : List Entry) (s : Sqlite)
    → IsCoherent c s
    → All (λ e. e.seq < u64_mod) es
    → OwnIds es s.rows
    → IsBatch c es s (append_entries c es s)
append_entries-IsBatch c [] s inv small own =
    unfold append_entries in
    record {
      coherent = inr inv;
      logged = inv.logged;
      kept = λ x i. i;
      stored = λ q x i. elim i [ ];
    }
append_entries-IsBatch c (e ∷ es) s inv small own =
    let round : IsRound c s e (append_entry c e s) =
      append_entry-IsRound c s e small.0 (own.table e (here refl)) inv in
    elim (Result-cases (append_entry c e s).0) [
      | inr (x, h) ↦ failed-IsBatch c e es s own round x h
      | inl (u, h) ↦ passed-IsBatch c e es s own round h (
          append_entries-IsBatch c es (append_entry c e s).1 (IsCoherent-after round.coherent h)
            small.1 (later-OwnIds c e es s own round))
    ]

-- If every cached log is the log of its thread's rows, AppendEntries of entries with numbers below
-- 2^64 whose ids are of one thread keeps that so, unless it fails because the database does not take a
-- row: where it succeeds, or a log refuses an entry, each thread's rows make a log that satisfies the
-- log's invariant, and each cached log holds the entries of its thread's rows and its highest rid. In
-- every case, that one included, the same holds after a restart.
pub append_entries-IsCoherent :
    (c : Crypto) (es : List Entry) (s : Sqlite)
    → IsCoherent c s
    → All (λ e. e.seq < u64_mod) es
    → OwnIds es s.rows
    → (((append_entries c es s).0 ≡ err not_stored) ⊎ IsCoherent c (append_entries c es s).1)
      × IsCoherent c (restart (append_entries c es s).1)
append_entries-IsCoherent c es s inv small own =
    let batch = append_entries-IsBatch c es s inv small own in
    (batch.coherent, restart-HasLogs c (append_entries c es s).1 batch.logged)
