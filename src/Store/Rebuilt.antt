-- ===== src/Store/Rebuilt.antt =====
-- A log is rebuilt from its entries, in the order in which the driver reads them.
use lamdis.Prelude.{
  suc, ◌≤◌, ◌<◌, String, ◌≡◌, ◌≢◌, refl, sym, ap, ◌∙◌, subst, ◌⊎◌, inl, inr, true, false, Option,
  none, some, List, [], ◌∷◌, arith, Option-cases, u64_mod,
}
use lamdis.Prelude.Eq.{◌==◌, string_eq}
use lamdis.Prelude.Lists.{All-In, In, here, there}
use lamdis.Prelude.Map.{lookup}
use lamdis.Prelude.Sort.{insertion_sort}
use lamdis.Prelude.SortLaws.{In-insertion_sort, of_insertion_sort, Ordered, insertion_sort-Ordered}
use lamdis.Result.{ok, ok-injective}
use lamdis.Log.Admission.{Extends, validate-pos}
use lamdis.Log.Appended.{append-IsChained, append-redelivered, new_thread_log-IsChained}
use lamdis.Log.ChainKey.{chain_key_eq, key_of}
use lamdis.Log.Crypto.{Crypto}
use lamdis.Log.Entry.{Entry, genesis_prev}
use lamdis.Log.Envelope.{hash}
use lamdis.Log.Hashed.{validate-hash, Extends-check_chain}
use lamdis.Log.Insertion.{of_insert_entry, In-insert_entry, In-insert_entry_old}
use lamdis.Log.Invariant.{Precedes, IsChained}
use lamdis.Log.ThreadLog.{
  ThreadLog, ChainHead, check_chain, admit, append, append_new, new_thread_log,
}
use lamdis.Store.ChainOrder.{chain_less-le, chain_less_asymm, chain_less_neg_trans}
use lamdis.Store.Sqlite.{chain_less, load_from}

-- `m` is what has been rebuilt of `l`, and the entries of `rest` are still to come.
record Rebuilding (c : Crypto) (l m : ThreadLog) (rest : List Entry) : Type 0 where
  chained : IsChained c m
  thread : m.thread ≡ l.thread
  from : (e : Entry) → In e m.entries → In e l.entries
  next : (e : Entry) → In e rest → In e l.entries
  complete : (e : Entry) → In e l.entries → In e m.entries ⊎ In e rest
  ordered : Ordered chain_less rest
  before : (x y : Entry) → In x m.entries → In y rest → key_of x ≡ key_of y → x.seq ≤ y.seq

module _ (c : Crypto) (l : ThreadLog) (inv : IsChained c l) (m : ThreadLog) (e : Entry)
    (rest : List Entry) (r : Rebuilding c l m (e ∷ rest)) where
  e_in : In e l.entries
  e_in = r.next e (here refl)

  -- what stands in the same chain behind `e` in the rows has no smaller number
  rest_above : (y : Entry) → In y rest → key_of e ≡ key_of y → e.seq ≤ y.seq
  rest_above y i q = chain_less-le e y q (All-In (λ z. chain_less z e ≡ false) y rest r.ordered.0 i)

  -- an entry that is there already
  held_lem : (prior : Entry) → lookup e.id m.by_id ≡ some prior → In e m.entries
  held_lem prior q =
      let (i, name) = r.chained.listed e.id prior q in
      let a : lookup prior.id l.by_id ≡ some prior = inv.indexed prior (r.from prior i) in
      let b : lookup prior.id l.by_id ≡ some e =
        subst (λ x. lookup x l.by_id ≡ some e) (sym name) (inv.indexed e e_in) in
      let same : prior ≡ e = cc (a, b) in subst (λ x. In x m.entries) same i

  -- an entry of the chain that is there has a smaller number than `e`, if `e` is new
  smaller :
      lookup e.id m.by_id ≡ none
      → (x : Entry) → In x m.entries
      → key_of x ≡ key_of e
      → x.seq < e.seq
  smaller fresh x i q =
      let le : x.seq ≤ e.seq = r.before x e i (here refl) q in
      let ne : x.seq ≢ e.seq = λ s. cc (
        fresh,
        r.chained.indexed e
            (subst (λ z. In z m.entries) (inv.unforked x e (r.from x i) e_in q s) i),
      ) in
      omega (arith, le, ne)

  -- the entry before `e` in its chain is there
  pred_held : (p : Entry) → Precedes c l e p → In p m.entries
  pred_held p link = elim (r.complete p link.held) [
    | inl i ↦ i
    | inr (here q) ↦
        absurd (let n : p.seq ≡ e.seq = ap (λ (x : Entry). x.seq) q in omega (arith, n, link.step))
    | inr (there i) ↦ absurd (omega (arith, rest_above p i (sym link.chain), link.step))
  ]

  extends_none : lookup (key_of e) m.heads ≡ none → (e.seq ≡ 1) × (e.prev ≡ genesis_prev)
  extends_none at = elim (inv.linked e e_in) [
    | inl first ↦ first
    | inr (p, link) ↦
        let (h, q, le) = r.chained.known p (pred_held p link) in
        cc (at, subst (λ k. lookup k m.heads ≡ some h) link.chain q)
  ]

  extends_some :
      lookup e.id m.by_id ≡ none
      → (h : ChainHead) → lookup (key_of e) m.heads ≡ some h
      → (e.seq ≡ suc h.seq) × (e.prev ≡ h.hash)
  extends_some fresh h at =
      let (x, head) = r.chained.headed (key_of e) h at in
      let low : x.seq < e.seq = smaller fresh x head.held head.chain in
      elim (inv.linked e e_in) [
        | inl first ↦
            absurd (omega (arith, low, first.0, validate-pos c x (r.chained.valid x head.held)))
        | inr (p, link) ↦
            let i : In p m.entries = pred_held p link in
            let (h', q, le) = r.chained.known p i in
            let same : h' ≡ h = cc (at, subst (λ k. lookup k m.heads ≡ some h') link.chain q) in
            let last : p.seq ≤ h.seq = subst (λ (z : ChainHead). p.seq ≤ z.seq) same le in
            let number : x.seq ≡ p.seq = omega (arith, low, last, head.number, link.step) in
            let top : x ≡ p =
              r.chained.unforked x p head.held i (head.chain ∙ sym link.chain) number in
            (
              omega (arith, number, head.number, link.step),
              ok-injective (sym link.link ∙ ap (hash c) (sym top) ∙ head.digest),
            )
      ]

  extends_lem :
      lookup e.id m.by_id ≡ none
      → (o : Option ChainHead) → lookup (key_of e) m.heads ≡ o
      → Extends o e
  unfolding Extends
  extends_lem fresh none at = extends_none at
  extends_lem fresh (some h) at = extends_some fresh h at

  small : e.seq < u64_mod
  small = inv.range e e_in

  append_fresh :
      lookup e.id m.by_id ≡ none → (d : String) → hash c e ≡ ok d → append c m e ≡ ok (admit m e d)
  unfolding append append_new
  append_fresh fresh d digest =
      let own : (e.thread == m.thread) ≡ true =
        (string_eq.beq_iff e.thread m.thread).1 (inv.in_thread e e_in ∙ sym r.thread) in
      let checked : check_chain (lookup (key_of e) m.heads) e ≡ ok tt =
        Extends-check_chain (lookup (key_of e) m.heads) e small
          (extends_lem fresh (lookup (key_of e) m.heads) refl) in
      rw own (rw (inv.valid e e_in) (rw fresh (rw checked (rw digest refl))))

  -- what is left of the rows once `e` is there
  advanced :
      (m' : ThreadLog)
      → IsChained c m'
      → m'.thread ≡ m.thread
      → In e m'.entries
      → ((x : Entry) → In x m.entries → In x m'.entries)
      → ((x : Entry) → In x m'.entries → (x ≡ e) ⊎ In x m.entries)
      → Rebuilding c l m' rest
  advanced m' chained same new old split = record {
    chained = chained;
    thread = same ∙ r.thread;
    from = λ x i. elim (split x i) [
      | inl q ↦ subst (λ z. In z l.entries) (sym q) e_in
      | inr j ↦ r.from x j
    ];
    next = λ x i. r.next x (there i);
    complete = λ x i. elim (r.complete x i) [
      | inl j ↦ inl (old x j)
      | inr (here q) ↦ inl (subst (λ z. In z m'.entries) (sym q) new)
      | inr (there j) ↦ inr j
    ];
    ordered = r.ordered.1;
    before = λ x y i j q. elim (split x i) [
      | inl s ↦
          let above : e.seq ≤ y.seq = rest_above y j (ap key_of (sym s) ∙ q) in
          subst (λ (z : Entry). z.seq ≤ y.seq) (sym s) above
      | inr k ↦ r.before x y k (there j) q
    ];
  }

  -- Append takes the next row
  append-Rebuilding : (m' : ThreadLog) × (append c m e ≡ ok m') × Rebuilding c l m' rest
  append-Rebuilding = elim (Option-cases (lookup e.id m.by_id)) [
    | inr (prior, q) ↦
        let i : In e m.entries = held_lem prior q in
        (
          m,
          append-redelivered c m e r.chained small i,
          advanced m r.chained refl i (λ x j. j) (λ x j. inr j),
        )
    | inl fresh ↦
        let (d, digest) = validate-hash c e (inv.valid e e_in) in
        let run : append c m e ≡ ok (admit m e d) = append_fresh fresh d digest in
        (
          admit m e d,
          run,
          advanced (admit m e d) (append-IsChained c m e r.chained small (admit m e d) run)
              (unfold admit in refl) (unfold admit in In-insert_entry e m.entries)
              (unfold admit in λ x j. In-insert_entry_old x e m.entries j)
              (unfold admit in λ x j. of_insert_entry x e m.entries j),
        )
  ]

new_log_empty : (thread : String) (e : Entry) → In e (new_thread_log thread).entries → ⊥
unfolding new_thread_log
new_log_empty thread e i = elim i [ ]

-- The same entries.
pub record SameEntries (l m : ThreadLog) : Type 0 where
  pub from : (e : Entry) → In e m.entries → In e l.entries
  pub into : (e : Entry) → In e l.entries → In e m.entries

module _ (c : Crypto) (l : ThreadLog) (inv : IsChained c l) where
  load_from-SameEntries :
      (m : ThreadLog) (rest : List Entry)
      → Rebuilding c l m rest
      → (m' : ThreadLog) × (load_from c m rest ≡ ok m')
        × IsChained c m'
        × (m'.thread ≡ l.thread)
        × SameEntries l m'
  unfolding load_from
  load_from-SameEntries m [] r = (
    m,
    refl,
    r.chained,
    r.thread,
    record {
      from = r.from;
      into = λ e i. elim (r.complete e i) [ inl j ↦ j | inr j ↦ elim j [ ] ];
    },
  )
  load_from-SameEntries m (e ∷ rest) r =
      let (m1, run, later) = append-Rebuilding c l inv m e rest r in
      let (m', more, chained, at, same) = load_from-SameEntries m1 rest later in
      (m', rw (run, load_from) more, chained, at, same)

  -- The rows of a log, in the order in which they are read, rebuild a log with the same entries.
  pub load_from-rebuilds :
      (es : List Entry)
      → ((e : Entry) → In e es → In e l.entries)
      → ((e : Entry) → In e l.entries → In e es)
      → (m : ThreadLog) × (load_from c (new_thread_log l.thread) (insertion_sort chain_less es)
          ≡ ok m)
        × IsChained c m
        × (m.thread ≡ l.thread)
        × SameEntries l m
  load_from-rebuilds es from into =
      load_from-SameEntries (new_thread_log l.thread) (insertion_sort chain_less es) (record {
        chained = new_thread_log-IsChained c l.thread;
        thread = unfold new_thread_log in refl;
        from = λ e i. absurd (new_log_empty l.thread e i);
        next = λ e i. from e (of_insertion_sort chain_less e es i);
        complete = λ e i. inr (In-insertion_sort chain_less e es (into e i));
        ordered = insertion_sort-Ordered chain_less chain_less_asymm chain_less_neg_trans es;
        before = λ x y i j q. absurd (new_log_empty l.thread x i);
      })
