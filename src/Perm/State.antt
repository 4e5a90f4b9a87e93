-- ===== src/Perm/State.antt =====
-- perm/perm.go: the folded state of one thread, and the clock that the fold reads.
use lamdis.Prelude.{ℕ, ◌-◌, ◌*◌, ◌%◌, ◌^◌, String, Bool, false, List, ltb, if◌then◌else◌}
use lamdis.Prelude.Int.{ℤ, pos, negsuc, ◌+ℤ◌}
use lamdis.Prelude.Map.{Map, empty}
use lamdis.Perm.Scope.{ScopeSet}

-- An instant, in nanoseconds from a fixed origin.
abbrev pub Time : Type 0
Time = ℤ

pub record AccessRequest : Type 0 where
  pub entry_id : String
  pub principal : String
  pub scopes : List String
  pub reason : String
  pub ts : String
  pub lamport : ℕ

pub record State : Type 0 where
  pub thread : String
  pub stewards : Map String Bool
  pub discoverable : Bool
  pub title : String
  -- the latest access request of each principal
  pub requests : Map String AccessRequest
  pub grants : Map String ScopeSet
  pub expiry : Map String Time
  -- agent to person
  pub delegations : Map String String
  -- the lamport of the latest deny or revoke
  pub denied_at : Map String ℕ
  -- the lamport of the earliest grant with contribute
  pub contrib_at : Map String ℕ

unfoldable pub new_state : String → State
new_state thread = record {
  thread = thread;
  stewards = empty;
  discoverable = false;
  title = "";
  requests = empty;
  grants = empty;
  expiry = empty;
  delegations = empty;
  denied_at = empty;
  contrib_at = empty;
}

-- the `int64` with a bit pattern
abbrev signed64 : ℕ → ℤ
signed64 n = if ltb n (2 ^ 63) then pos n else negsuc (2 ^ 64 - n - 1)

-- `ts.Add(time.Duration(seconds) * time.Second)` for a positive number of seconds: the product
-- wraps as an `int64`.
unfoldable pub add_seconds : Time → ℕ → Time
unfolding ◌+ℤ◌
add_seconds ts seconds = ts +ℤ signed64 ((seconds * 1_000_000_000) % 2 ^ 64)
