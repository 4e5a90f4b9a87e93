-- ===== src/Log/Admission.antt =====
-- What Append writes keeps the invariant of the log.
use lamdis.Prelude.{
  suc, ◌≤◌, ◌<◌, String, ◌≡◌, refl, sym, ap, ◌∙◌, subst, ◌≢◌, ◌⊎◌, inl, inr, true, false, Option,
  none, some, arith, Bool-cases, ltb, u64_mod, add64, if◌then◌else◌,
}
use lamdis.Prelude.Eq.{◌==◌, string_eq, beq_refl}
use lamdis.Prelude.Lists.{All-of_In, In}
use lamdis.Prelude.Map.{lookup, insert, lookup-insert}
use lamdis.Result.{ok, >>-eq-ok}
use lamdis.Log.ChainKey.{ChainKey, chain_key_eq, key_of}
use lamdis.Log.Crypto.{Crypto}
use lamdis.Log.Entry.{Entry, genesis_prev}
use lamdis.Log.Envelope.{validate, check_shape, hash}
use lamdis.Log.Insertion.{
  insert_entry-IsSorted, of_insert_entry, In-insert_entry, In-insert_entry_old,
}
use lamdis.Log.Invariant.{Precedes, IsHead, IsChained}
use lamdis.Log.TotalOrder.{IsSorted}
use lamdis.Log.ThreadLog.{ChainHead, ThreadLog, check_chain, admit}

-- How an admitted entry stands to the head of its chain: its first entry, or the next one.
unfoldable pub Extends : Option ChainHead → Entry → Type 0
Extends none e = (e.seq ≡ 1) × (e.prev ≡ genesis_prev)
Extends (some h) e = (e.seq ≡ suc h.seq) × (e.prev ≡ h.hash)

pub check_chain-Extends :
    (o : Option ChainHead) (e : Entry)
    → ((h : ChainHead) → o ≡ some h → h.seq < u64_mod)
    → 1 ≤ e.seq
    → check_chain o e ≡ ok tt
    → Extends o e
unfolding check_chain Extends
check_chain-Extends none e r pos h =
    (ground (arith, h), ground (arith, h, string_eq.beq_iff e.prev genesis_prev))
check_chain-Extends (some head) e r pos h =
    let small : head.seq < u64_mod = r head refl in
    let next : e.seq ≡ add64 head.seq 1 = ground (arith, h) in
    (omega arith, ground (arith, h, string_eq.beq_iff e.prev head.hash))

-- Only entries with a positive number are valid.
check_shape-pos : (c : Crypto) (e : Entry) → check_shape c e ≡ ok tt → 1 ≤ e.seq
unfolding check_shape
check_shape-pos c e h = ground (arith, h)

pub validate-pos : (c : Crypto) (e : Entry) → validate c e ≡ ok tt → 1 ≤ e.seq
unfolding validate
validate-pos c e h = check_shape-pos c e (>>-eq-ok (check_shape c e) _ h).0

-- The log as it is after `e` is admitted with its hash `d`.
module _ (c : Crypto) (l : ThreadLog) (e : Entry) (d : String) (inv : IsChained c l)
    (own : e.thread ≡ l.thread) (sound : validate c e ≡ ok tt) (small : e.seq < u64_mod)
    (fresh : lookup e.id l.by_id ≡ none) (ext : Extends (lookup (key_of e) l.heads) e)
    (digest : hash c e ≡ ok d) where
  abbrev pub grown : ThreadLog
  grown = admit l e d

  -- an entry of the new log is `e` or an old one
  module _ {ℓ} (P : Entry → Type ℓ) (new : P e) (old : (x : Entry) → In x l.entries → P x) where
    each : (x : Entry) → In x grown.entries → P x
    unfolding admit
    each x i = elim (of_insert_entry x e l.entries i) [
      | inl q ↦ subst P (sym q) new
      | inr j ↦ old x j
    ]

  other_id : (x : Entry) → In x l.entries → x.id ≢ e.id
  other_id x i q = cc (inv.indexed x i, ap (λ (k : String). lookup k l.by_id) q)

  kept : (x : Entry) → In x l.entries → In x grown.entries
  unfolding admit
  kept x i = In-insert_entry_old x e l.entries i

  added : In e grown.entries
  unfolding admit
  added = In-insert_entry e l.entries

  admit-IsSorted : IsSorted grown.entries
  unfolding admit
  admit-IsSorted =
      insert_entry-IsSorted e l.entries inv.sorted (All-of_In (λ x. x.id ≢ e.id) l.entries other_id)

  admit-indexed : (x : Entry) → In x grown.entries → lookup x.id grown.by_id ≡ some x
  unfolding admit
  admit-indexed =
      each (λ x. lookup x.id (insert e.id e l.by_id) ≡ some x)
        (rw (lookup-insert, beq_refl {K = String} e.id) refl)
        (λ x i. ground (
          arith,
          lookup-insert e.id x.id e l.by_id,
          inv.indexed x i,
          string_eq.beq_iff e.id x.id,
          other_id x i,
        ))

  admit-listed :
      (id : String) (x : Entry) → lookup id grown.by_id ≡ some x → In x grown.entries × (x.id ≡ id)
  unfolding admit
  admit-listed id x h = elim (Bool-cases (e.id == id)) [
    | inl q ↦
        let same : e ≡ x = ground (arith, h, q, lookup-insert e.id id e l.by_id) in
        let name : e.id ≡ id = (string_eq.beq_iff e.id id).0 q in
        (subst (λ y. In y grown.entries) same added, subst (λ y. y.id ≡ id) same name)
    | inr q ↦
        let found : lookup id l.by_id ≡ some x =
          ground (arith, h, q, lookup-insert e.id id e l.by_id) in
        (kept x (inv.listed id x found).0, (inv.listed id x found).1)
  ]

  admit-in_thread : (x : Entry) → In x grown.entries → x.thread ≡ grown.thread
  unfolding admit
  admit-in_thread = each (λ x. x.thread ≡ l.thread) own inv.in_thread

  admit-valid : (x : Entry) → In x grown.entries → validate c x ≡ ok tt
  admit-valid = each (λ x. validate c x ≡ ok tt) sound inv.valid

  admit-range : (x : Entry) → In x grown.entries → x.seq < u64_mod
  admit-range = each (λ x. x.seq < u64_mod) small inv.range

  admit-clock : (x : Entry) → In x grown.entries → x.lamport ≤ grown.lamport
  unfolding admit
  admit-clock =
      each (λ x. x.lamport ≤ (if ltb l.lamport e.lamport then e.lamport else l.lamport))
        (ground arith) (λ x i. let old : x.lamport ≤ l.lamport = inv.clock x i in ground arith)

  -- an old entry of the new entry's chain has a smaller number
  earlier : (x : Entry) → In x l.entries → key_of x ≡ key_of e → x.seq < e.seq
  unfolding Extends
  earlier x i k =
      let (h, q, le) = inv.known x i in
      let at : lookup (key_of e) l.heads ≡ some h = subst (λ z. lookup z l.heads ≡ some h) k q in
      let next : Extends (some h) e = subst (λ o. Extends o e) at ext in omega (arith, next.0, le)

  head' : ChainHead
  head' = record { seq = e.seq; hash = d }

  at_key : (k : ChainKey) → (key_of e == k) ≡ true → lookup k grown.heads ≡ some head'
  unfolding admit head'
  at_key k q = rw (lookup-insert, q) refl

  off_key : (k : ChainKey) → (key_of e == k) ≡ false → lookup k grown.heads ≡ lookup k l.heads
  unfolding admit
  off_key k q = rw (lookup-insert, q) refl

  admit-known :
      (x : Entry)
      → In x grown.entries
      → (h : ChainHead) × (lookup (key_of x) grown.heads ≡ some h) × (x.seq ≤ h.seq)
  unfolding head'
  admit-known =
      each (λ x. (h : ChainHead) × (lookup (key_of x) grown.heads ≡ some h) × (x.seq ≤ h.seq))
        (head', at_key (key_of e) (beq_refl {K = ChainKey} (key_of e)), omega arith)
        (λ x i. elim (Bool-cases (key_of e == key_of x)) [
          | inl q ↦
              let k : key_of x ≡ key_of e =
                sym ((chain_key_eq.beq_iff (key_of e) (key_of x)).0 q) in
              let less_ : x.seq < e.seq = earlier x i k in (head', at_key (key_of x) q, omega arith)
          | inr q ↦ let (h, found, le) = inv.known x i in (h, off_key (key_of x) q ∙ found, le)
        ])

  admit-headed :
      (k : ChainKey) (h : ChainHead)
      → lookup k grown.heads ≡ some h
      → (x : Entry) × IsHead c grown k h x
  unfolding head'
  admit-headed k h found = elim (Bool-cases (key_of e == k)) [
    | inl q ↦
        let same : head' ≡ h = cc (at_key k q) in
        (
          e,
          record {
            held = added;
            chain = (chain_key_eq.beq_iff (key_of e) k).0 q;
            number = ap (λ (z : ChainHead). z.seq) same;
            digest = digest ∙ ap (λ (z : ChainHead). ok z.hash) same;
          },
        )
    | inr q ↦
        let (x, old) = inv.headed k h (sym (off_key k q) ∙ found) in
        (
          x,
          record {
            held = kept x old.held;
            chain = old.chain;
            number = old.number;
            digest = old.digest;
          },
        )
  ]

  still-Precedes : (x p : Entry) → Precedes c l x p → Precedes c grown x p
  still-Precedes x p r = record {
    held = kept p r.held;
    chain = r.chain;
    step = r.step;
    link = r.link;
  }

  Extends-linked :
      (o : Option ChainHead)
      → lookup (key_of e) l.heads ≡ o
      → Extends o e
      → ((e.seq ≡ 1) × (e.prev ≡ genesis_prev)) ⊎ ((p : Entry) × Precedes c grown e p)
  unfolding Extends
  Extends-linked none at x = inl x
  Extends-linked (some h) at x =
      let (p, old) = inv.headed (key_of e) h at in
      inr (
        p,
        record {
          held = kept p old.held;
          chain = old.chain;
          step = omega (arith, x.0, old.number);
          link = old.digest ∙ ap (λ (t : String). ok t) (sym x.1);
        },
      )

  admit-linked :
      (x : Entry)
      → In x grown.entries
      → ((x.seq ≡ 1) × (x.prev ≡ genesis_prev)) ⊎ ((p : Entry) × Precedes c grown x p)
  admit-linked =
      each (λ x. ((x.seq ≡ 1) × (x.prev ≡ genesis_prev)) ⊎ ((p : Entry) × Precedes c grown x p))
        (Extends-linked (lookup (key_of e) l.heads) refl ext)
        (λ x i. elim (inv.linked x i) [
          | inl first ↦ inl first
          | inr (p, r) ↦ inr (p, still-Precedes x p r)
        ])

  admit-unforked :
      (x y : Entry)
      → In x grown.entries
      → In y grown.entries
      → key_of x ≡ key_of y
      → x.seq ≡ y.seq
      → x ≡ y
  admit-unforked x y i j =
      each (λ x. key_of x ≡ key_of y → x.seq ≡ y.seq → x ≡ y)
        (each (λ y. key_of e ≡ key_of y → e.seq ≡ y.seq → e ≡ y) (λ _ _. refl)
          (λ z k q n. absurd (let low : z.seq < e.seq = earlier z k (sym q) in omega arith)) y j)
        (λ z k.
          each (λ y. key_of z ≡ key_of y → z.seq ≡ y.seq → z ≡ y)
            (λ q n. absurd (let low : z.seq < e.seq = earlier z k q in omega arith))
            (λ w m. inv.unforked z w k m) y j)
        x i

  pub admit-IsChained : IsChained c grown
  admit-IsChained = record {
    sorted = admit-IsSorted;
    indexed = admit-indexed;
    listed = admit-listed;
    in_thread = admit-in_thread;
    valid = admit-valid;
    range = admit-range;
    clock = admit-clock;
    known = admit-known;
    headed = admit-headed;
    linked = admit-linked;
    unforked = admit-unforked;
  }
