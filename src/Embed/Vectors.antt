-- ===== src/Embed/Vectors.antt =====
-- store/sqlite.go: texts and vectors. A row is an entry with its indexable text, "" where it has none; a
-- vector is the list of its float32 bits.
use lamdis.Prelude.{
  ℕ, zero, suc, String, Bool, true, false, ◌&&◌, not, Option, none, some, List, [], ◌∷◌, eqb,
  if◌then◌else◌,
}
use lamdis.Prelude.Eq.{◌==◌, string_eq, nat_eq}
use lamdis.Prelude.Int.{ℤ, pos, negsuc}
use lamdis.Prelude.Lists.{length, keep}
use lamdis.Prelude.Map.{Map, lookup, insert}
use lamdis.Result.{Result, ok, err, dimension_mismatch, no_such_entry}
use lamdis.Exec.{Exec, ◌>>◌}

abbrev pub Vector : Type 0
Vector = List ℕ

pub record TextRow : Type 0 where
  pub rid : ℕ
  pub id : String
  pub text : String

pub record Index : Type 0 where
  -- in the order of their rids
  pub rows : List TextRow
  pub vectors : Map ℕ Vector
  -- 0 before the first vector
  pub dim : ℕ

-- the first elements, `LIMIT`
unfoldable pub take {ℓ} : {A : Type ℓ} → ℕ → List A → List A
take zero xs = []
take (suc n) [] = []
take (suc n) (x ∷ xs) = x ∷ take n xs

-- a size, or the default where it is not positive
unfoldable pub positive_or : ℕ → ℤ → ℕ
positive_or default (pos zero) = default
positive_or default (pos (suc n)) = suc n
positive_or default (negsuc n) = default

-- `text != '' AND rid NOT IN (SELECT rid FROM vectors)`
unfoldable pub is_pending : Map ℕ Vector → TextRow → Bool
unfolding lookup
is_pending vectors r =
    not (r.text == "") && elim (lookup r.rid vectors) [ none ↦ true | some _ ↦ false ]

abbrev pub pending_rows : Index → List TextRow
pending_rows s = keep (is_pending s.vectors) s.rows

-- PendingEmbeds
unfoldable pub pending_embeds : ℤ → Index → List TextRow
unfolding positive_or take keep is_pending
pending_embeds limit s = take (positive_or 100 limit) (pending_rows s)

-- `WHERE id = ?`
unfoldable pub find_row : String → List TextRow → Option TextRow
find_row id [] = none
find_row id (r ∷ rows) = let rest = find_row id rows in if r.id == id then some r else rest

-- EntryText
unfoldable pub entry_text : String → Index → Result String
unfolding find_row
entry_text id s = elim (find_row id s.rows) [ none ↦ err no_such_entry | some r ↦ ok r.text ]

-- ensureDim
unfoldable pub ensure_dim : ℕ → Exec Index (Unit {0})
ensure_dim dim s =
    if eqb s.dim dim
    then (ok tt, s)
    else if not (eqb s.dim 0)
    then (err dimension_mismatch, s)
    else (ok tt, record s { dim = dim })

unfoldable pub put_vector : Option TextRow → Vector → Exec Index (Unit {0})
unfolding insert
put_vector none vec s = (err no_such_entry, s)
put_vector (some r) vec s = (ok tt, record s { vectors = insert r.rid vec s.vectors })

-- UpsertVector
unfoldable pub upsert_vector : String → Vector → Exec Index (Unit {0})
unfolding ensure_dim put_vector find_row
upsert_vector id vec = do ensure_dim (length vec); (λ s. put_vector (find_row id s.rows) vec s)
