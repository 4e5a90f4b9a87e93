-- ===== src/Store/Rows.antt =====
-- The entries table: what its queries find, and what a new row changes.
use lamdis.Prelude.{
  ◌<◌, String, ◌≡◌, refl, sym, ap, ◌∙◌, inl, inr, true, false, Bool, ◌&&◌, ◌||◌, List, [], ◌∷◌,
  ◌++◌, arith, eqb, Bool-cases, if◌then◌else◌,
}
use lamdis.Prelude.Eq.{◌==◌, string_eq}
use lamdis.Prelude.Lists.{In, here, there}
use lamdis.Log.ChainKey.{key_of, key_beq_iff}
use lamdis.Log.Entry.{Entry}
use lamdis.Store.Sqlite.{Row, max_rid, next_rid, entries_of, id_stored, place_stored}

pub max_rid_lt : (thread : String) (rows : List Row) → max_rid thread rows < next_rid rows
unfolding max_rid next_rid
max_rid_lt thread [] = omega arith
max_rid_lt thread (r ∷ rows) = ground (arith, max_rid_lt thread rows)

-- a row with a higher rid than all
pub max_rid-append :
    (thread : String) (rows : List Row) (row : Row)
    → max_rid thread rows < row.rid
    → max_rid thread (rows ++ row ∷ [])
      ≡ (if row.entry.thread == thread then row.rid else max_rid thread rows)
unfolding max_rid
max_rid-append thread [] row h = ground (arith, h)
max_rid-append thread (r ∷ rows) row h =
    let low : max_rid thread rows < row.rid = ground (arith, h) in
    ground (arith, h, low, max_rid-append thread rows row low)

pub entries_of-append :
    (thread : String) (rows : List Row) (row : Row)
    → entries_of thread (rows ++ row ∷ []) ≡ (
        if row.entry.thread == thread
        then entries_of thread rows ++ row.entry ∷ []
        else entries_of thread rows)
unfolding entries_of
entries_of-append thread [] row = refl
entries_of-append thread (r ∷ rows) row =
    rw (entries_of-append thread rows row) (elim (Bool-cases (r.entry.thread == thread)) [
      | inl q ↦
          rw q (elim (Bool-cases (row.entry.thread == thread)) [
            | inl p ↦ rw p refl
            | inr p ↦ rw p refl
          ])
      | inr q ↦ rw q refl
    ])

pub In-entries_of :
    (thread : String) (r : Row) (rows : List Row)
    → In r rows
    → r.entry.thread ≡ thread
    → In r.entry (entries_of thread rows)
unfolding entries_of
In-entries_of thread r [] i q = elim i [ ]
In-entries_of thread r (x ∷ rows) (here p) q =
    rw ((string_eq.beq_iff x.entry.thread thread).1 (ap (λ (y : Row). y.entry.thread) (sym p) ∙ q))
      (here (ap (λ (y : Row). y.entry) p))
In-entries_of thread r (x ∷ rows) (there i) q = elim (Bool-cases (x.entry.thread == thread)) [
  | inl p ↦ rw p (there (In-entries_of thread r rows i q))
  | inr p ↦ rw p (In-entries_of thread r rows i q)
]

-- an entry of the thread stands in a row
pub record Stored (thread : String) (rows : List Row) (e : Entry) : Type 0 where
  pub row : Row
  pub held : In row rows
  pub entry : row.entry ≡ e
  pub at : e.thread ≡ thread

one_more :
    (thread : String) (x : Row) (rows : List Row) (e : Entry)
    → Stored thread rows e
    → Stored thread (x ∷ rows) e
one_more thread x rows e s = record { row = s.row; held = there s.held; entry = s.entry; at = s.at }

pub entries_of-Stored :
    (thread : String) (rows : List Row) (e : Entry)
    → In e (entries_of thread rows)
    → Stored thread rows e
unfolding entries_of
entries_of-Stored thread [] e i = elim i [ ]
entries_of-Stored thread (x ∷ rows) e i = elim (Bool-cases (x.entry.thread == thread)) [
  | inr p ↦ one_more thread x rows e (entries_of-Stored thread rows e (rw p at i))
  | inl p ↦
      first (entries_of-Stored thread rows e) (rw p at i)
        ((string_eq.beq_iff x.entry.thread thread).0 p)
]
  where
    first :
        (In e (entries_of thread rows) → Stored thread rows e)
        → In e (x.entry ∷ entries_of thread rows)
        → x.entry.thread ≡ thread
        → Stored thread (x ∷ rows) e
    first ih (here q) p = record {
      row = x;
      held = here refl;
      entry = sym q;
      at = ap (λ (y : Entry). y.thread) q ∙ p;
    }
    first ih (there j) p = one_more thread x rows e (ih j)

pub id_stored-In :
    (id : String) (rows : List Row)
    → id_stored id rows ≡ true
    → (r : Row) × In r rows × (r.entry.id ≡ id)
unfolding id_stored
id_stored-In id [] h = cc
id_stored-In id (x ∷ rows) h = elim (Bool-cases (x.entry.id == id)) [
  | inl q ↦ (x, here refl, (string_eq.beq_iff x.entry.id id).0 q)
  | inr q ↦ let (r, i, p) = id_stored-In id rows (rw q at h) in (r, there i, p)
]

pub id_stored-of_In :
    (id : String) (r : Row) (rows : List Row)
    → In r rows
    → r.entry.id ≡ id
    → id_stored id rows ≡ true
unfolding id_stored
id_stored-of_In id r [] i q = elim i [ ]
id_stored-of_In id r (x ∷ rows) (here p) q =
    rw ((string_eq.beq_iff x.entry.id id).1 (ap (λ (y : Row). y.entry.id) (sym p) ∙ q)) refl
id_stored-of_In id r (x ∷ rows) (there i) q = rw (id_stored-of_In id r rows i q) (ground arith)

abbrev same_place : Entry → Entry → Bool
same_place x e = x.thread == e.thread && x.author == e.author && x.lane == e.lane && eqb x.seq e.seq

same_place-eq : (x e : Entry) → same_place x e ≡ true → (key_of x ≡ key_of e) × (x.seq ≡ e.seq)
same_place-eq x e h = ((key_beq_iff (key_of x) (key_of e)).0 (ground (arith, h)), ground (arith, h))

not_first : (a b : Bool) → (a || b) ≡ true → a ≡ false → b ≡ true
not_first a b h q = ground (arith, h, q)

pub place_stored-In :
    (e : Entry) (rows : List Row)
    → place_stored e rows ≡ true
    → (r : Row) × In r rows × (key_of r.entry ≡ key_of e) × (r.entry.seq ≡ e.seq)
unfolding place_stored
place_stored-In e [] h = cc
place_stored-In e (x ∷ rows) h = elim (Bool-cases (same_place x.entry e)) [
  | inl q ↦ let (k, n) = same_place-eq x.entry e q in (x, here refl, k, n)
  | inr q ↦
      let (r, i, k, n) =
        place_stored-In e rows (not_first (same_place x.entry e) (place_stored e rows) h q) in
      (r, there i, k, n)
]
