-- ===== src/Embed/Answers.antt =====
-- What Embed returns of an answer: at each text's place, the last item with its index.
use lamdis.Prelude.{
  ℕ, zero, suc, ◌<◌, String, ◌≡◌, refl, sym, ap, ◌∙◌, subst, List, [], ◌∷◌, arith, ltb, eqb, Bool,
  false, Option, none, some, if◌then◌else◌, Bool-cases, inl, inr,
}
use lamdis.Prelude.Int.{ℤ, pos, negsuc}
use lamdis.Prelude.Lists.{length, All}
use lamdis.Result.{Result, ok, >>=-eq-ok, ok-injective}
use lamdis.Embed.Client.{Item, no_vectors, set_at, put_item, place, place_answer, embed}
use lamdis.Embed.Vectors.{Vector}

length-no_vectors : (n : ℕ) → length (no_vectors n) ≡ n
unfolding no_vectors
length-no_vectors zero = refl
length-no_vectors (suc n) = ap suc (length-no_vectors n)

length-set_at : (i : ℕ) (v : Vector) (ws : List Vector) → length (set_at i v ws) ≡ length ws
unfolding set_at
length-set_at i v [] = refl
length-set_at zero v (w ∷ ws) = refl
length-set_at (suc i) v (w ∷ ws) = ap suc (length-set_at i v ws)

-- the item is for one of `n` texts
abbrev pub IsFor : ℕ → Item → Type 0
IsFor n d = (i : ℕ) × (d.index ≡ pos i) × (i < n)

index_lem :
    (z : ℤ) (v : Vector) (ws out : List Vector)
    → put_item (record { index = z; embedding = v }) ws ≡ ok out
    → ((i : ℕ) × (z ≡ pos i) × (i < length ws)) × (length out ≡ length ws)
unfolding put_item
index_lem (negsuc n) v ws out h = cc
index_lem (pos i) v ws out h = elim (Bool-cases (ltb i (length ws))) [
  | inl q ↦ (
    (i, refl, ground (arith, q)),
    ap length (sym (ok-injective (rw q at h))) ∙ length-set_at i v ws,
  )
  | inr q ↦ cc (rw q at h)
]

place-length :
    (ds : List Item) (ws out : List Vector)
    → place ds ws ≡ ok out
    → (length out ≡ length ws) × All (IsFor (length ws)) ds
unfolding place
place-length [] ws out h = (ap length (sym (ok-injective h)), tt)
place-length (d ∷ ds) ws out h =
    let (next, first, rest) = >>=-eq-ok (put_item d ws) (λ (x : List Vector). place ds x) h in
    let (into, same) = index_lem d.index d.embedding ws next first in
    let (n, all) = place-length ds next out rest in
    (n ∙ same, (into, subst (λ (k : ℕ). All (IsFor k) ds) same all))

-- the vector at a place
pub get_elem? : ℕ → List Vector → Option Vector
get_elem? i [] = none
get_elem? zero (w ∷ ws) = some w
get_elem? (suc i) (w ∷ ws) = get_elem? i ws

is_at : ℕ → ℤ → Bool
is_at i (pos k) = eqb k i
is_at i (negsuc k) = false

-- the embedding of the last item with the index, `w` where there is none
pub last_for : ℕ → Vector → List Item → Vector
last_for i w [] = w
last_for i w (d ∷ ds) = last_for i (if is_at i d.index then d.embedding else w) ds

eqb-suc : (k i : ℕ) → eqb (suc k) (suc i) ≡ eqb k i
eqb-suc k i = elim (Bool-cases (eqb k i)) [ inl q ↦ ground (arith, q) | inr q ↦ ground (arith, q) ]

get_elem?-set_at :
    (i k : ℕ) (v w : Vector) (ws : List Vector)
    → get_elem? i ws ≡ some w
    → get_elem? i (set_at k v ws) ≡ some (if eqb k i then v else w)
unfolding set_at get_elem?
get_elem?-set_at i k v w [] h = cc
get_elem?-set_at zero zero v w (x ∷ ws) h = refl
get_elem?-set_at zero (suc k) v w (x ∷ ws) h =
    let q : eqb (suc k) 0 ≡ false = ground arith in rw q h
get_elem?-set_at (suc i) zero v w (x ∷ ws) h =
    let q : eqb 0 (suc i) ≡ false = ground arith in rw q h
get_elem?-set_at (suc i) (suc k) v w (x ∷ ws) h =
    let q : eqb (suc k) (suc i) ≡ eqb k i = eqb-suc k i in rw q (get_elem?-set_at i k v w ws h)

get_elem?-put_item :
    (i : ℕ) (z : ℤ) (v w : Vector) (ws out : List Vector)
    → put_item (record { index = z; embedding = v }) ws ≡ ok out
    → get_elem? i ws ≡ some w
    → get_elem? i out ≡ some (if is_at i z then v else w)
unfolding put_item is_at
get_elem?-put_item i (negsuc k) v w ws out h g = cc
get_elem?-put_item i (pos k) v w ws out h g = elim (Bool-cases (ltb k (length ws))) [
  | inr q ↦ cc (rw q at h)
  | inl q ↦ ap (get_elem? i) (sym (ok-injective (rw q at h))) ∙ get_elem?-set_at i k v w ws g
]

get_elem?-place :
    (i : ℕ) (ds : List Item) (w : Vector) (ws out : List Vector)
    → place ds ws ≡ ok out
    → get_elem? i ws ≡ some w
    → get_elem? i out ≡ some (last_for i w ds)
unfolding place last_for
get_elem?-place i [] w ws out h g = ap (get_elem? i) (sym (ok-injective h)) ∙ g
get_elem?-place i (d ∷ ds) w ws out h g =
    let (next, first, rest) = >>=-eq-ok (put_item d ws) (λ (x : List Vector). place ds x) h in
    get_elem?-place i ds (if is_at i d.index then d.embedding else w) next out rest
      (get_elem?-put_item i d.index d.embedding w ws next first g)

get_elem?-no_vectors : (i n : ℕ) → i < n → get_elem? i (no_vectors n) ≡ some []
unfolding no_vectors get_elem?
get_elem?-no_vectors i zero h = absurd (omega (arith, h))
get_elem?-no_vectors zero (suc n) h = refl
get_elem?-no_vectors (suc i) (suc n) h = get_elem?-no_vectors i n (omega (arith, h))

-- If Embed returns vectors for a list of texts that is not empty, the service answered with as many
-- items as there are texts, the index of each item is that of a text, there are as many vectors, and
-- the vector at a text's place is that of the last item with its index, and the empty one where no
-- item has it.
pub embed-places :
    (call : List String → Result (List Item)) (t : String) (texts : List String) (items : List Item)
    (vecs : List Vector) (i : ℕ)
    → call (t ∷ texts) ≡ ok items
    → embed call (t ∷ texts) ≡ ok vecs
    → i < length (t ∷ texts)
    → (length vecs ≡ length (t ∷ texts))
      × (length items ≡ length (t ∷ texts))
      × All (IsFor (length (t ∷ texts))) items
      × (get_elem? i vecs ≡ some (last_for i [] items))
unfolding embed place_answer
embed-places call t texts items vecs i answered h low =
    elim (Bool-cases (eqb (length items) (length (t ∷ texts)))) [
      | inr q ↦ cc (rw (answered, q) at h)
      | inl q ↦
          let (n, all) =
            place-length items (no_vectors (length (t ∷ texts))) vecs (rw (answered, q) at h) in
          (
            n ∙ length-no_vectors (length (t ∷ texts)),
            ground (arith, q),
            subst (λ (k : ℕ). All (IsFor k) items) (length-no_vectors (length (t ∷ texts))) all,
            get_elem?-place i items [] (no_vectors (length (t ∷ texts))) vecs
                (rw (answered, q) at h) (get_elem?-no_vectors i (length (t ∷ texts)) low),
          )
    ]
