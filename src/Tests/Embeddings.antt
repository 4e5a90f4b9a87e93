-- ===== src/Tests/Embeddings.antt =====
-- The embedding worker on two entries.
use lamdis.Prelude.{ℕ, ◌<◌, String, ◌≡◌, ◌≢◌, refl, List, [], ◌∷◌, arith, some}
use lamdis.Prelude.Int.{pos}
use lamdis.Prelude.Lists.{length, In, here, there, All}
use lamdis.Result.{Result, ok}
use lamdis.Embed.Answers.{IsFor, get_elem?, last_for, embed-places}
use lamdis.Prelude.{some, arith}
use lamdis.Embed.Client.{Item, embed}
use lamdis.Embed.Drained.{drain-ends}
use lamdis.Embed.Waiting.{IsKeyed}
use lamdis.Embed.Vectors.{Vector, TextRow, Index, find_row, pending_rows}
use lamdis.Embed.Worker.{drain, out_of_fuel, drained}

abbrev one_row : TextRow
one_row = record { rid = 1; id = "a"; text = "hello" }

abbrev two_row : TextRow
two_row = record { rid = 2; id = "b"; text = "world" }

abbrev index : Index
index = record { rows = one_row ∷ two_row ∷ []; vectors = []; dim = 0 }

index-IsKeyed : IsKeyed index.rows
unfolding find_row
index-IsKeyed r (here q) = rw q refl
index-IsKeyed r (there (here q)) = rw q refl
index-IsKeyed r (there (there i)) = elim i [ ]

abbrev ones : List String → Result (List Vector)
ones texts = ok (each texts)
  where
    each : List String → List Vector
    each [] = []
    each (t ∷ ts) = (1 ∷ []) ∷ each ts

waiting_both : length (pending_rows index) ≡ 2
unfolding lamdis.Prelude.Lists.keep lamdis.Embed.Vectors.is_pending
waiting_both = refl

drain-ends_example :
    ((drain ones 3 (pos 1) index).0 ≢ out_of_fuel)
    × ((drain ones 3 (pos 1) index).0 ≡ drained → pending_rows (drain ones 3 (pos 1) index).1 ≡ [])
drain-ends_example = drain-ends ones 3 (pos 1) index index-IsKeyed (omega (arith, waiting_both))

abbrev swapped : List Item
swapped =
    record { index = pos 1; embedding = 7 ∷ [] } ∷ record { index = pos 0; embedding = 8 ∷ [] } ∷ []

abbrev placed : List Vector
placed = (8 ∷ []) ∷ (7 ∷ []) ∷ []

embed_run : embed (λ _. ok swapped) ("a" ∷ "b" ∷ []) ≡ ok placed
unfolding embed
embed_run = refl

embed-places_example :
    (length placed ≡ 2)
    × (length swapped ≡ 2)
    × All (IsFor 2) swapped
    × (get_elem? 1 placed ≡ some (last_for 1 [] swapped))
embed-places_example =
    embed-places (λ _. ok swapped) "a" ("b" ∷ []) swapped placed 1 refl embed_run (omega arith)
