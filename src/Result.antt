-- ===== src/Result.antt =====
-- The errors of the node, by their cause, and results that may be one. (Go's `(value, error)`.)
use lamdis.Prelude.{◌≡◌, refl, Bool, true, false, ◌⊎◌, inl, inr}

pub data Error : Type 0 where
  -- the envelope (log/entry.go, log/identity.go)
  unsupported_version invalid_id invalid_thread invalid_kind invalid_lane : Error
  zero_seq zero_lamport invalid_prev malformed_sig unknown_core_kind : Error
  missing_prefix bad_encoding bad_length bad_on_behalf_of : Error
  body_required invalid_json trailing_data not_an_object : Error
  unsigned author_mismatch bad_signature : Error
  -- the chains (log/log.go)
  foreign_thread id_collision first_seq first_prev seq_gap prev_mismatch : Error
  -- the store (store/sqlite.go)
  corrupt_store unique_violation not_stored thread_not_found no_lanes query_refused : Error
  -- replication (sync/sync.go)
  other_thread not_the_author not_a_steward lacks_contribute unknown_lane : Error
  only_access_requests peer_error : Error
  -- requests (api/api.go)
  missing_headers bad_timestamp outside_skew bad_signature_encoding unverified : Error
  refused_by_peer bad_answer : Error
  -- the owner's commands (cmd/lamdis/main.go)
  invalid_scope nothing_pending no_such_thread several_threads not_a_peer no_identity : Error
  corrupt_peers key_exists no_store corrupt_key no_key : Error
  -- embeddings (embed/embed.go, store/sqlite.go)
  embedding_failed wrong_count index_out_of_range dimension_mismatch no_such_entry : Error

-- What a call returns: its value, or the error.
pub data Result {ℓ} (V : Type ℓ) : Type ℓ where
  err : Error → Result V
  ok : V → Result V

module _ {κ} {W : Type κ} where
  infixl 5 ◌>>=◌ ◌>>◌
  abbrev pub ◌>>=◌ {ℓ} : {V : Type ℓ} → Result V → (V → Result W) → Result W
  err e >>= f = err e
  ok a >>= f = f a

  abbrev pub ◌>>◌ : Result (Unit {0}) → Result W → Result W
  first >> next = first >>= λ _. next

-- An early return: the error, unless the test passes.
abbrev pub check : Bool → Error → Result (Unit {0})
check true e = ok tt
check false e = err e

-- A chain that returned ran to its end.
pub >>=-eq-ok {ℓ κ} :
    {V : Type ℓ} {W : Type κ} (first : Result V) (next : V → Result W) {w : W}
    → (first >>= next) ≡ ok w
    → (v : V) × (first ≡ ok v) × (next v ≡ ok w)
>>=-eq-ok (err x) next h = cc
>>=-eq-ok (ok v) next h = (v, refl, h)

pub check-eq-ok {κ} :
    {B : Type κ} (t : Bool) (e : Error) (k : Result B) {b : B}
    → (check t e >> k) ≡ ok b
    → (t ≡ true) × (k ≡ ok b)
check-eq-ok true e k h = (refl, h)
check-eq-ok false e k h = cc

pub Result-cases {ℓ} :
    {A : Type ℓ} (r : Result A) → ((a : A) × (r ≡ ok a)) ⊎ ((e : Error) × (r ≡ err e))
Result-cases (ok a) = inl (a, refl)
Result-cases (err e) = inr (e, refl)

pub err-ne-ok {ℓ} : {A : Type ℓ} (e : Error) (a : A) → err e ≡ ok a → ⊥
err-ne-ok e a h = cc

pub >>-eq-ok {κ} :
    {B : Type κ} (m : Result (Unit {0})) (k : Result B) {b : B}
    → (m >> k) ≡ ok b
    → (m ≡ ok tt) × (k ≡ ok b)
>>-eq-ok (ok u) k h = (refl, h)
>>-eq-ok (err e) k h = cc

pub ok-injective {ℓ} : {A : Type ℓ} {a b : A} → ok a ≡ ok b → a ≡ b
ok-injective h = cc
