-- ===== src/Embed/Client.antt =====
-- embed/embed.go: OpenAICompat.Embed. The call of the service is a parameter: the items that the answer
-- decodes to, each with its index, or an error.
use lamdis.Prelude.{ℕ, zero, suc, String, List, [], ◌∷◌, ltb, eqb, if◌then◌else◌}
use lamdis.Prelude.Int.{ℤ, pos, negsuc}
use lamdis.Prelude.Lists.{length}
use lamdis.Result.{Result, ok, err, ◌>>=◌, wrong_count, index_out_of_range}
use lamdis.Embed.Vectors.{Vector}

pub record Item : Type 0 where
  pub index : ℤ
  pub embedding : Vector

-- `make([][]float32, n)`: n nil vectors
unfoldable pub no_vectors : ℕ → List Vector
no_vectors zero = []
no_vectors (suc n) = [] ∷ no_vectors n

unfoldable pub set_at : ℕ → Vector → List Vector → List Vector
set_at i v [] = []
set_at zero v (w ∷ ws) = v ∷ ws
set_at (suc i) v (w ∷ ws) = w ∷ set_at i v ws

-- one item into its place
unfoldable pub put_item : Item → List Vector → Result (List Vector)
unfolding set_at
put_item d vecs = elim d.index [
  | negsuc _ ↦ err index_out_of_range
  | pos i ↦ if ltb i (length vecs) then ok (set_at i d.embedding vecs) else err index_out_of_range
]

unfoldable pub place : List Item → List Vector → Result (List Vector)
unfolding put_item
place [] vecs = ok vecs
place (d ∷ ds) vecs = do next ← put_item d vecs; place ds next

module _ (call : List String → Result (List Item)) where
  unfoldable pub place_answer : List String → List Item → Result (List Vector)
  unfolding place no_vectors
  place_answer texts items =
      if eqb (length items) (length texts)
      then place items (no_vectors (length texts))
      else err wrong_count

  -- Embed
  unfoldable pub embed : List String → Result (List Vector)
  unfolding place_answer
  embed [] = ok []
  embed (t ∷ texts) = do items ← call (t ∷ texts); place_answer (t ∷ texts) items
