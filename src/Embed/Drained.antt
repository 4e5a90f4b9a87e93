-- ===== src/Embed/Drained.antt =====
-- Draining ends: each round with a result leaves fewer entries without a vector.
use lamdis.Prelude.{
  ℕ, zero, suc, ◌≤◌, ◌<◌, String, true, ◌≡◌, ◌≢◌, refl, sym, ap, ◌∙◌, subst, List, [], ◌∷◌, arith,
  inl, inr, ◌⊎◌,
}
use lamdis.Prelude.Eq.{string_eq, nat_eq}
use lamdis.Prelude.Int.{ℤ, pos, negsuc}
use lamdis.Prelude.Lists.{length, In, here, In-keep}
use lamdis.Result.{Result, ok, Result-cases, ok-injective}
use lamdis.Exec.{lift, pure, ◌>>=◌, ◌>>◌}
use lamdis.Embed.Vectors.{
  Vector, TextRow, Index, is_pending, pending_rows, pending_embeds, positive_or, take,
  upsert_vector,
}
use lamdis.Embed.Worker.{texts_of, upsert_all, embed_rows, tick, drain, out_of_fuel, drained}
use lamdis.Embed.Waiting.{
  IsKeyed, waiting, IsPut, waiting-insert_le, waiting-insert_lt, upsert_vector-IsPut,
}

-- the rows stay, and no more of them wait
record Shrinks (s s' : Index) : Type 0 where
  rows : s'.rows ≡ s.rows
  fewer : waiting s'.vectors s'.rows ≤ waiting s.vectors s.rows

IsPut-Shrinks : (id : String) (vec : Vector) (s s' : Index) → IsPut id vec s s' → Shrinks s s'
IsPut-Shrinks id vec s s' p = record {
  rows = p.rows;
  fewer = rw (p.rows, p.vectors) (waiting-insert_le p.row.rid vec s.vectors s.rows);
}

upsert_all-Shrinks :
    (rs : List TextRow) (vecs : List Vector) (s : Index)
    → (upsert_all rs vecs s).0 ≡ ok tt
    → Shrinks s (upsert_all rs vecs s).1
unfolding upsert_all
upsert_all-Shrinks [] vecs s h = record { rows = refl; fewer = omega arith }
upsert_all-Shrinks (r ∷ rs) [] s h = cc
upsert_all-Shrinks (r ∷ rs) (v ∷ vecs) s h = elim (Result-cases (upsert_vector r.id v s).0) [
  | inr (x, q) ↦ cc (rw (q, ◌>>=◌, ◌>>◌) at h)
  | inl (tt, q) ↦
      let s1 : Index = (upsert_vector r.id v s).1 in
      let first = IsPut-Shrinks r.id v s s1 (upsert_vector-IsPut r.id v s q) in
      let later = upsert_all-Shrinks rs vecs s1 (rw (q, ◌>>=◌, ◌>>◌) at h) in
      rw (q, ◌>>=◌, ◌>>◌)
        (record { rows = later.rows ∙ first.rows; fewer = omega (arith, first.fewer, later.fewer) })
]

-- the first of the rows gets its vector
IsPut-waiting :
    (r : TextRow) (vec : Vector) (s s' : Index)
    → IsKeyed s.rows
    → In r s.rows
    → is_pending s.vectors r ≡ true
    → IsPut r.id vec s s'
    → waiting s'.vectors s'.rows < waiting s.vectors s.rows
IsPut-waiting r vec s s' keyed i p put =
    let same : put.row ≡ r = cc (put.found, keyed r i) in
    rw (put.rows, put.vectors, same) (waiting-insert_lt vec s.vectors r s.rows i p)

record Progress (s s' : Index) : Type 0 where
  rows : s'.rows ≡ s.rows
  fewer : waiting s'.vectors s'.rows < waiting s.vectors s.rows

upsert_all-Progress :
    (r : TextRow) (rs : List TextRow) (vecs : List Vector) (s : Index)
    → IsKeyed s.rows
    → In r s.rows
    → is_pending s.vectors r ≡ true
    → (upsert_all (r ∷ rs) vecs s).0 ≡ ok tt
    → Progress s (upsert_all (r ∷ rs) vecs s).1
unfolding upsert_all
upsert_all-Progress r rs [] s keyed i p h = cc
upsert_all-Progress r rs (v ∷ vecs) s keyed i p h = elim (Result-cases (upsert_vector r.id v s).0) [
  | inr (x, q) ↦ cc (rw (q, ◌>>=◌, ◌>>◌) at h)
  | inl (tt, q) ↦
      let s1 : Index = (upsert_vector r.id v s).1 in
      let put = upsert_vector-IsPut r.id v s q in
      let first = IsPut-waiting r v s s1 keyed i p put in
      let later = upsert_all-Shrinks rs vecs s1 (rw (q, ◌>>=◌, ◌>>◌) at h) in
      rw (q, ◌>>=◌, ◌>>◌)
        (record { rows = later.rows ∙ put.rows; fewer = omega (arith, first, later.fewer) })
]

take_head :
    (default : ℕ) (batch : ℤ) (r : TextRow) (rs : List TextRow)
    → (rest : List TextRow) × (take
          (positive_or 100 (pos (positive_or (suc default) batch)))
          (r ∷ rs)
        ≡ r ∷ rest)
unfolding take positive_or
take_head default (pos zero) r rs = (_, refl)
take_head default (pos (suc n)) r rs = (_, refl)
take_head default (negsuc n) r rs = (_, refl)

rows_cases :
    (rs : List TextRow) → (rs ≡ []) ⊎ ((r : TextRow) × (rest : List TextRow) × (rs ≡ r ∷ rest))
rows_cases [] = inl refl
rows_cases (r ∷ rest) = inr (r, rest, refl)

take_none : (n : ℕ) → take {A = TextRow} n [] ≡ []
unfolding take
take_none zero = refl
take_none (suc n) = refl

module _ (embedder : List String → Result (List Vector)) where
  embed_rows-Progress :
      (r : TextRow) (rs : List TextRow) (s : Index) (n : ℕ)
      → IsKeyed s.rows
      → In r s.rows
      → is_pending s.vectors r ≡ true
      → (embed_rows embedder (r ∷ rs) s).0 ≡ ok n
      → (n ≡ suc (length rs)) × Progress s (embed_rows embedder (r ∷ rs) s).1
  unfolding embed_rows
  embed_rows-Progress r rs s n keyed i p h = elim (Result-cases (texts_of (r ∷ rs) s)) [
    | inr (x, q) ↦ cc (rw (q, ◌>>=◌) at h)
    | inl (texts, q) ↦ elim (Result-cases (embedder texts)) [
      | inr (x, q2) ↦ cc (rw (q, ◌>>=◌, q2, lift) at h)
      | inl (vecs, q2) ↦ elim (Result-cases (upsert_all (r ∷ rs) vecs s).0) [
        | inr (x, q3) ↦ cc (rw (q, ◌>>=◌, q2, lift, q3, ◌>>◌) at h)
        | inl (tt, q3) ↦
            let counted : n ≡ suc (length rs) =
              ok-injective (sym (rw (q, ◌>>=◌, q2, lift, q3, ◌>>◌, pure) at h)) in
            rw (q, ◌>>=◌, q2, lift, q3, ◌>>◌)
              (counted, upsert_all-Progress r rs vecs s keyed i p q3)
      ]
    ]
  ]

  tick-none : (batch : ℤ) (s : Index) → pending_rows s ≡ [] → tick embedder batch s ≡ (ok 0, s)
  unfolding tick pending_embeds embed_rows
  tick-none batch s q = rw (q, take_none (positive_or 100 (pos (positive_or 32 batch)))) refl

  tick-some :
      (batch : ℤ) (s : Index) (r : TextRow) (rest : List TextRow) (n : ℕ)
      → IsKeyed s.rows
      → pending_rows s ≡ r ∷ rest
      → (tick embedder batch s).0 ≡ ok n
      → (m : ℕ) × (n ≡ suc m) × Progress s (tick embedder batch s).1
  unfolding tick pending_embeds
  tick-some batch s r rest n keyed q h =
      let (rs, shown) = take_head 31 batch r rest in
      let (i, p) =
        In-keep (is_pending s.vectors) r s.rows (subst (λ xs. In r xs) (sym q) (here refl)) in
      let (counted, progress) = embed_rows-Progress r rs s n keyed i p (rw (q, shown) at h) in
      (length rs, counted, rw (q, shown) progress)

  -- Where the ids of the rows are unique, the loop of drainEmbeds does not run out of a fuel that is
  -- above the number of entries with a text and no vector, whatever the embedder answers; and where it
  -- ends without an error, no entry with a text lacks a vector.
  pub drain-ends :
      (fuel : ℕ) (batch : ℤ) (s : Index)
      → IsKeyed s.rows
      → length (pending_rows s) < fuel
      → ((drain embedder fuel batch s).0 ≢ out_of_fuel)
        × ((drain embedder fuel batch s).0 ≡ drained
            → pending_rows (drain embedder fuel batch s).1 ≡ [])
  unfolding drain
  drain-ends zero batch s keyed room = absurd (omega arith)
  drain-ends (suc fuel) batch s keyed room = elim (rows_cases (pending_rows s)) [
    | inl q ↦
        rw (tick-none batch s q, drain)
          (
            λ h. cc h,
            λ h. ap (λ (x : Result ℕ × Index). pending_rows x.1) (tick-none batch s q) ∙ q,
          )
    | inr (r, rest, q) ↦ elim (Result-cases (tick embedder batch s).0) [
      | inr (x, h) ↦ rw (h, drain) (λ e. cc e, λ e. cc e)
      | inl (n, h) ↦
          let (m, more, progress) = tick-some batch s r rest n keyed q h in
          rw (h ∙ ap ok more, drain)
            (drain-ends fuel batch (tick embedder batch s).1
              (subst IsKeyed (sym progress.rows) keyed) (omega (arith, room, progress.fewer)))
    ]
  ]
