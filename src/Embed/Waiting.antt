-- ===== src/Embed/Waiting.antt =====
-- How many entries wait for a vector, and what putting a vector changes.
use lamdis.Prelude.{
  ℕ, ◌≤◌, ◌<◌, String, true, ◌≡◌, refl, sym, ap, ◌∙◌, Option, none, some, List, [], ◌∷◌, arith, inl,
  inr,
}
use lamdis.Prelude.Eq.{string_eq, nat_eq}
use lamdis.Prelude.Lists.{length, keep, In, here, there}
use lamdis.Prelude.Map.{Map, insert, lookup-insert}
use lamdis.Result.{ok, Result-cases}
use lamdis.Exec.{◌>>=◌, ◌>>◌}
use lamdis.Embed.Vectors.{
  Vector, TextRow, Index, is_pending, find_row, ensure_dim, put_vector, upsert_vector,
}

-- the ids of the table are unique
abbrev pub IsKeyed : List TextRow → Type 0
IsKeyed rows = (r : TextRow) → In r rows → find_row r.id rows ≡ some r

abbrev pub waiting : Map ℕ Vector → List TextRow → ℕ
waiting vectors rows = length (keep (is_pending vectors) rows)

pub waiting-insert_le :
    (k : ℕ) (v : Vector) (vs : Map ℕ Vector) (rows : List TextRow)
    → waiting (insert k v vs) rows ≤ waiting vs rows
unfolding keep is_pending
waiting-insert_le k v vs [] = omega arith
waiting-insert_le k v vs (r ∷ rows) =
    ground (arith, waiting-insert_le k v vs rows, lookup-insert k r.rid v vs)

pub waiting-insert_lt :
    (v : Vector) (vs : Map ℕ Vector) (r : TextRow) (rows : List TextRow)
    → In r rows
    → is_pending vs r ≡ true
    → waiting (insert r.rid v vs) rows < waiting vs rows
unfolding keep is_pending
waiting-insert_lt v vs r (x ∷ rows) (here q) p = rw (sym q) (
    ground (
      arith,
      waiting-insert_le r.rid v vs rows,
      lookup-insert r.rid r.rid v vs,
      nat_eq.beq_iff r.rid r.rid,
      p,
    ))
waiting-insert_lt v vs r (x ∷ rows) (there i) p =
    ground (arith, waiting-insert_lt v vs r rows i p, lookup-insert r.rid x.rid v vs)
waiting-insert_lt v vs r [] i p = elim i [ ]

pub ensure_dim-keeps :
    (dim : ℕ) (s : Index)
    → ((ensure_dim dim s).1.rows ≡ s.rows) × ((ensure_dim dim s).1.vectors ≡ s.vectors)
unfolding ensure_dim
ensure_dim-keeps dim s = (ground arith, ground arith)

-- a vector was put
pub record IsPut (id : String) (vec : Vector) (s s' : Index) : Type 0 where
  pub row : TextRow
  pub found : find_row id s.rows ≡ some row
  pub rows : s'.rows ≡ s.rows
  pub vectors : s'.vectors ≡ insert row.rid vec s.vectors

pub put_vector-IsPut :
    (o : Option TextRow) (id : String) (vec : Vector) (s : Index)
    → find_row id s.rows ≡ o
    → (put_vector o vec s).0 ≡ ok tt
    → IsPut id vec s (put_vector o vec s).1
unfolding put_vector
put_vector-IsPut none id vec s q h = cc
put_vector-IsPut (some r) id vec s q h = record { row = r; found = q; rows = refl; vectors = refl }

pub IsPut-before :
    (id : String) (vec : Vector) (s s1 s' : Index)
    → s1.rows ≡ s.rows
    → s1.vectors ≡ s.vectors
    → IsPut id vec s1 s'
    → IsPut id vec s s'
IsPut-before id vec s s1 s' a b p = record {
  row = p.row;
  found = ap (find_row id) (sym a) ∙ p.found;
  rows = p.rows ∙ a;
  vectors = p.vectors ∙ ap (insert p.row.rid vec) b;
}

pub upsert_vector-IsPut :
    (id : String) (vec : Vector) (s : Index)
    → (upsert_vector id vec s).0 ≡ ok tt
    → IsPut id vec s (upsert_vector id vec s).1
unfolding upsert_vector
upsert_vector-IsPut id vec s h = elim (Result-cases (ensure_dim (length vec) s).0) [
  | inr (x, q) ↦ cc (rw (q, ◌>>=◌, ◌>>◌) at h)
  | inl (u, q) ↦
      let s1 : Index = (ensure_dim (length vec) s).1 in
      let (same_rows, same_vectors) = ensure_dim-keeps (length vec) s in
      rw (q, ◌>>=◌, ◌>>◌)
        (IsPut-before id vec s s1 _ same_rows same_vectors
          (put_vector-IsPut (find_row id s1.rows) id vec s1 refl (rw (q, ◌>>=◌, ◌>>◌) at h)))
]
