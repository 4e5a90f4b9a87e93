-- ===== src/Search/Scoped.antt =====
-- The two retrievals of Search find hits of rows in the asked scope, and the merged map keeps one for each entry.
use lamdis.Prelude.{
  ℕ, zero, suc, ◌≤◌, String, ◌≡◌, refl, sym, ap, ◌∙◌, subst, Bool, true, ◌&&◌, ◌||◌, Option, none,
  some, List, [], ◌∷◌, eqb, arith, ◌⊎◌, inl, inr, Bool-cases,
}
use lamdis.Prelude.Eq.{◌==◌, string_eq, nat_eq}
use lamdis.Prelude.Lists.{length, In, here, there, All, All-append}
use lamdis.Prelude.Map.{Map, lookup, insert, lookup-insert}
use lamdis.Prelude.MapLaws.{Distinct, insert-Distinct}
use lamdis.Embed.Vectors.{Vector, take}
use lamdis.Store.Sqlite.{Row}
use lamdis.Search.{SearchRequest, Hit}
use lamdis.Search.Engine.{
  is_one_of, Floats, Scored, in_scope, fts_hits, to_hit, candidate, candidates, hits_of,
}
use lamdis.Search.Merge.{add_rank, add_list}

-- a hit that tells of a row in the request's scope
pub record IsHit {F : Type 0} (req : SearchRequest) (rows : List Row) (h : Hit F) : Type 0 where
  pub row : Row
  pub held : In row rows
  pub entry_id : h.entry_id ≡ row.entry.id
  pub thread : h.thread ≡ row.entry.thread
  pub kind : h.kind ≡ row.entry.kind
  pub lane : h.lane ≡ row.entry.lane
  -- what the request asks for
  pub lane_asked : In row.entry.lane req.lanes
  pub thread_asked : (req.threads ≡ []) ⊎ In row.entry.thread req.threads
  pub kind_asked : (req.kinds ≡ []) ⊎ In row.entry.kind req.kinds

pub All-take {ℓ κ} :
    {A : Type ℓ} (P : A → Type κ) (n : ℕ) (xs : List A) → All P xs → All P (take n xs)
unfolding take
All-take P zero xs h = tt
All-take P (suc n) [] h = tt
All-take P (suc n) (x ∷ xs) h = (h.0, All-take P n xs h.1)

pub length-take {ℓ} : {A : Type ℓ} (n : ℕ) (xs : List A) → length (take n xs) ≤ n
unfolding take
length-take zero xs = omega arith
length-take (suc n) [] = omega arith
length-take (suc n) (x ∷ xs) = omega (arith, length-take n xs)

is_one_of-In : (s : String) (xs : List String) → is_one_of s xs ≡ true → In s xs
unfolding is_one_of
is_one_of-In s [] h = cc
is_one_of-In s (x ∷ xs) h = elim (Bool-cases (s == x)) [
  | inl q ↦ here ((string_eq.beq_iff s x).0 q)
  | inr q ↦ there (is_one_of-In s xs (rw q at h))
]

-- an empty list asks for everything
all_or_In :
    (s : String) (xs : List String)
    → (eqb (length xs) 0 || is_one_of s xs) ≡ true
    → (xs ≡ []) ⊎ In s xs
all_or_In s [] h = inl refl
all_or_In s (x ∷ xs) h = inr (is_one_of-In s (x ∷ xs) (ground (arith, h)))

both : (a b c : Bool) → (a && b && c) ≡ true → (a ≡ true) × (b ≡ true) × (c ≡ true)
both a b c h = (ground (arith, h), ground (arith, h), ground (arith, h))

in_scope-asked :
    (req : SearchRequest) (r : Row)
    → in_scope req r ≡ true
    → In r.entry.lane req.lanes
      × ((req.threads ≡ []) ⊎ In r.entry.thread req.threads)
      × ((req.kinds ≡ []) ⊎ In r.entry.kind req.kinds)
unfolding in_scope
in_scope-asked req r h =
    let (lane, thread, kind) =
      both (is_one_of r.entry.lane req.lanes)
        (eqb (length req.threads) 0 || is_one_of r.entry.thread req.threads)
        (eqb (length req.kinds) 0 || is_one_of r.entry.kind req.kinds) h in
    (
      is_one_of-In r.entry.lane req.lanes lane,
      all_or_In r.entry.thread req.threads thread,
      all_or_In r.entry.kind req.kinds kind,
    )

-- what a row must be for its hits to be of the request
abbrev pub InScope : SearchRequest → List Row → Row → Type 0
InScope req rows r = In r rows × (in_scope req r ≡ true)

module _ (fl : Floats) (req : SearchRequest) (rows : List Row) where
  to_hit-IsHit :
      (r : Row) (snippet : String) → InScope req rows r → IsHit req rows (to_hit fl r snippet)
  unfolding to_hit
  to_hit-IsHit r snippet (i, q) =
      let (lane, thread, kind) = in_scope-asked req r q in
      record {
        row = r;
        held = i;
        lane_asked = lane;
        thread_asked = thread;
        kind_asked = kind;
        entry_id = refl;
        thread = refl;
        kind = refl;
        lane = refl;
      }

  pub fts_hits-IsHit :
      (snippet : String → String) (rs : List Row)
      → All (InScope req rows) rs
      → All (IsHit req rows) (fts_hits fl snippet rs)
  unfolding fts_hits
  fts_hits-IsHit snippet [] h = tt
  fts_hits-IsHit snippet (r ∷ rs) h = (to_hit-IsHit r _ h.0, fts_hits-IsHit snippet rs h.1)

  candidate-IsHit :
      (q : Vector) (r : Row) (o : Option Vector)
      → InScope req rows r
      → All (λ (x : Scored fl). IsHit req rows x.1) (candidate fl q r o)
  unfolding candidate
  candidate-IsHit q r none h = tt
  candidate-IsHit q r (some vec) h = (to_hit-IsHit r _ h, tt)

  pub candidates-IsHit :
      (q : Vector) (vectors : Map ℕ Vector) (rs : List Row)
      → All (InScope req rows) rs
      → All (λ (x : Scored fl). IsHit req rows x.1) (candidates fl q vectors rs)
  unfolding candidates
  candidates-IsHit q vectors [] h = tt
  candidates-IsHit q vectors (r ∷ rs) h =
      All-append (λ (x : Scored fl). IsHit req rows x.1) (candidate fl q r (lookup r.rid vectors))
        (candidates fl q vectors rs) (candidate-IsHit q r _ h.0) (candidates-IsHit q vectors rs h.1)

  pub hits_of-IsHit :
      (xs : List (Scored fl))
      → All (λ (x : Scored fl). IsHit req rows x.1) xs
      → All (IsHit req rows) (hits_of fl xs)
  unfolding hits_of
  hits_of-IsHit [] h = tt
  hits_of-IsHit ((sim, x) ∷ xs) h = (h.0, hits_of-IsHit xs h.1)

  add_rank-IsHit :
      (i : ℕ) (h : Hit fl.F) (o : Option (Hit fl.F))
      → IsHit req rows h
      → ((old : Hit fl.F) → o ≡ some old → IsHit req rows old)
      → IsHit req rows (add_rank fl i h o)
  unfolding add_rank
  add_rank-IsHit i h none a b = record {
    row = a.row;
    held = a.held;
    lane_asked = a.lane_asked;
    thread_asked = a.thread_asked;
    kind_asked = a.kind_asked;
    entry_id = a.entry_id;
    thread = a.thread;
    kind = a.kind;
    lane = a.lane;
  }
  add_rank-IsHit i h (some old) a b =
      let x = b old refl in
      record {
        row = x.row;
        held = x.held;
        lane_asked = x.lane_asked;
        thread_asked = x.thread_asked;
        kind_asked = x.kind_asked;
        entry_id = x.entry_id;
        thread = x.thread;
        kind = x.kind;
        lane = x.lane;
      }

  -- the merged map: one hit for each entry id, under its id
  pub record IsMerged (m : Map String (Hit fl.F)) : Type 0 where
    pub distinct : Distinct m
    pub hits :
        (id : String) (h : Hit fl.F) → lookup id m ≡ some h → IsHit req rows h × (h.entry_id ≡ id)

  some_eq : {x y : Hit fl.F} → some x ≡ some y → x ≡ y
  some_eq h = cc

  insert-IsMerged :
      (id : String) (h : Hit fl.F) (m : Map String (Hit fl.F))
      → IsMerged m
      → IsHit req rows h
      → h.entry_id ≡ id
      → IsMerged (insert id h m)
  insert-IsMerged id h m inv good name = record {
    distinct = insert-Distinct id h m inv.distinct;
    hits = λ j x at. elim (Bool-cases (id == j)) [
      | inl q ↦
          let same : h ≡ x = some_eq (rw (lookup-insert, q) at at) in
          (
            subst (IsHit req rows) same good,
            ap (λ (y : Hit fl.F). y.entry_id) (sym same) ∙ name ∙ (string_eq.beq_iff id j).0 q,
          )
      | inr q ↦ inv.hits j x (rw (lookup-insert, q) at at)
    ];
  }

  add_rank-entry_id :
      (i : ℕ) (h : Hit fl.F) (o : Option (Hit fl.F))
      → ((old : Hit fl.F) → o ≡ some old → old.entry_id ≡ h.entry_id)
      → (add_rank fl i h o).entry_id ≡ h.entry_id
  unfolding add_rank
  add_rank-entry_id i h none a = refl
  add_rank-entry_id i h (some old) a = a old refl

  pub add_list-IsMerged :
      (i : ℕ) (hits : List (Hit fl.F)) (m : Map String (Hit fl.F))
      → All (IsHit req rows) hits
      → IsMerged m
      → IsMerged (add_list fl i hits m)
  unfolding add_list
  add_list-IsMerged i [] m good inv = inv
  add_list-IsMerged i (h ∷ hits) m good inv =
      add_list-IsMerged (suc i) hits (insert h.entry_id (add_rank fl i h (lookup h.entry_id m)) m)
        good.1
        (insert-IsMerged h.entry_id (add_rank fl i h (lookup h.entry_id m)) m inv
          (add_rank-IsHit i h (lookup h.entry_id m) good.0 (λ old q. (inv.hits h.entry_id old q).0))
          (add_rank-entry_id i h (lookup h.entry_id m) (λ old q. (inv.hits h.entry_id old q).1)))
