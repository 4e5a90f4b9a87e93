-- ===== src/Json/Bodies.antt =====
-- The bodies of core entries that the permission fold decodes (node/internal/perm/perm.go).
use lamdis.Prelude.{String, Bool, false, Option, some, List, [], if◌then◌else◌}
use lamdis.Prelude.Int.{ℤ, pos}
use lamdis.Json.{Value, RawMessage}
use lamdis.Json.Unmarshal.{◌>>=◌, is_field, unmarshal, to_string, to_strings, to_bool, to_int64}

-- core.thread
pub record ThreadBody : Type 0 where
  pub stewards : List String
  pub title : String
  pub discoverable : Bool

set_thread : String → Value → ThreadBody → Option ThreadBody
set_thread key v b =
    if is_field key "stewards"
    then (do s ← to_strings v b.stewards; some (record b { stewards = s }))
    else if is_field key "title"
    then (do s ← to_string v b.title; some (record b { title = s }))
    else if is_field key "discoverable"
    then (do d ← to_bool v b.discoverable; some (record b { discoverable = d }))
    else some b

unfoldable pub decode_thread : RawMessage → Option ThreadBody
unfolding set_thread unmarshal is_field to_string to_strings to_bool
decode_thread raw =
    unmarshal set_thread raw (record { stewards = []; title = ""; discoverable = false })

-- core.grant, core.deny and core.revoke
pub record GrantBody : Type 0 where
  pub principal : String
  pub scopes : List String
  pub ttl_seconds : ℤ
  pub request : String

set_grant : String → Value → GrantBody → Option GrantBody
set_grant key v b =
    if is_field key "principal"
    then (do s ← to_string v b.principal; some (record b { principal = s }))
    else if is_field key "scopes"
    then (do s ← to_strings v b.scopes; some (record b { scopes = s }))
    else if is_field key "ttl_seconds"
    then (do n ← to_int64 v b.ttl_seconds; some (record b { ttl_seconds = n }))
    else if is_field key "request"
    then (do s ← to_string v b.request; some (record b { request = s }))
    else some b

unfoldable pub decode_grant : RawMessage → Option GrantBody
unfolding set_grant unmarshal is_field to_string to_strings to_int64
decode_grant raw =
    unmarshal set_grant raw
      (record { principal = ""; scopes = []; ttl_seconds = pos 0; request = "" })

-- core.membership
pub record MembershipBody : Type 0 where
  pub member : String
  pub role : String

set_membership : String → Value → MembershipBody → Option MembershipBody
set_membership key v b =
    if is_field key "member"
    then (do s ← to_string v b.member; some (record b { member = s }))
    else if is_field key "role"
    then (do s ← to_string v b.role; some (record b { role = s }))
    else some b

unfoldable pub decode_membership : RawMessage → Option MembershipBody
unfolding set_membership unmarshal is_field to_string
decode_membership raw = unmarshal set_membership raw (record { member = ""; role = "" })

-- core.delegation
pub record DelegationBody : Type 0 where
  pub agent : String
  pub expires_at : String
  pub revoked : Bool

set_delegation : String → Value → DelegationBody → Option DelegationBody
set_delegation key v b =
    if is_field key "agent"
    then (do s ← to_string v b.agent; some (record b { agent = s }))
    else if is_field key "expires_at"
    then (do s ← to_string v b.expires_at; some (record b { expires_at = s }))
    else if is_field key "revoked"
    then (do r ← to_bool v b.revoked; some (record b { revoked = r }))
    else some b

unfoldable pub decode_delegation : RawMessage → Option DelegationBody
unfolding set_delegation unmarshal is_field to_string to_bool
decode_delegation raw =
    unmarshal set_delegation raw (record { agent = ""; expires_at = ""; revoked = false })

-- core.access_request
pub record RequestBody : Type 0 where
  pub scopes : List String
  pub reason : String

set_request : String → Value → RequestBody → Option RequestBody
set_request key v b =
    if is_field key "scopes"
    then (do s ← to_strings v b.scopes; some (record b { scopes = s }))
    else if is_field key "reason"
    then (do s ← to_string v b.reason; some (record b { reason = s }))
    else some b

unfoldable pub decode_request : RawMessage → Option RequestBody
unfolding set_request unmarshal is_field to_string to_strings
decode_request raw = unmarshal set_request raw (record { scopes = []; reason = "" })
