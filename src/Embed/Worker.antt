-- ===== src/Embed/Worker.antt =====
-- embed/embed.go: Worker.Tick, and cmd/lamdis/main.go: the loop of drainEmbeds. The loop runs on fuel.
use lamdis.Prelude.{ℕ, zero, suc, String, List, [], ◌∷◌}
use lamdis.Prelude.Int.{ℤ, pos}
use lamdis.Prelude.Lists.{length}
use lamdis.Result.{Error, Result, ok, err, ◌>>=◌ as bind, index_out_of_range}
use lamdis.Exec.{Exec, pure, lift, ◌>>=◌, ◌>>◌}
use lamdis.Embed.Vectors.{
  Vector, TextRow, Index, positive_or, pending_embeds, entry_text, upsert_vector,
}

unfoldable pub texts_of : List TextRow → Index → Result (List String)
unfolding entry_text
texts_of [] s = ok []
texts_of (r ∷ rows) s = bind (entry_text r.id s) (λ t. bind (texts_of rows s) (λ ts. ok (t ∷ ts)))

-- the loop over the ids; `vecs[i]` panics where there is no vector
unfoldable pub upsert_all : List TextRow → List Vector → Exec Index (Unit {0})
unfolding upsert_vector
upsert_all [] vecs s = (ok tt, s)
upsert_all (r ∷ rows) [] s = (err index_out_of_range, s)
upsert_all (r ∷ rows) (v ∷ vecs) s = (upsert_vector r.id v >> upsert_all rows vecs) s

pub data Outcome : Type 0 where
  out_of_fuel : Outcome
  failed : Error → Outcome
  drained : Outcome

module _ (embedder : List String → Result (List Vector)) where
  unfoldable pub embed_rows : List TextRow → Exec Index ℕ
  unfolding texts_of upsert_all
  embed_rows [] = pure 0
  embed_rows (r ∷ rows) = do
    texts ← (λ s. (texts_of (r ∷ rows) s, s))
    vecs ← lift (embedder texts)
    upsert_all (r ∷ rows) vecs
    pure (length (r ∷ rows))

  -- Tick
  unfoldable pub tick : ℤ → Exec Index ℕ
  unfolding embed_rows positive_or pending_embeds
  tick batch s = embed_rows (pending_embeds (pos (positive_or 32 batch)) s) s

  -- drainEmbeds, with an embedder
  unfoldable pub drain : ℕ → ℤ → Index → Outcome × Index
  unfolding tick
  drain zero batch s = (out_of_fuel, s)
  drain (suc fuel) batch s = elim (tick batch s).0 [
    | err x ↦ (failed x, (tick batch s).1)
    | ok zero ↦ (drained, (tick batch s).1)
    | ok (suc n) ↦ drain fuel batch (tick batch s).1
  ]
