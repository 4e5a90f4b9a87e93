-- ===== src/Owner/Portal.antt =====
-- api/portal.go: the owner's decisions. The bearer token's check is a comparison; json.Decode of the
-- request's body is a parameter.
use lamdis.Prelude.{
  ℕ, String, Bool, ◌||◌, ◌&&◌, not, Option, none, some, List, [], ◌∷◌, eqb, true, false,
  if◌then◌else◌,
}
use lamdis.Prelude.Eq.{◌==◌, string_eq}
use lamdis.Prelude.Lists.{length}
use lamdis.Prelude.Text.{codes}
use lamdis.Json.{Fields, end}
use lamdis.Result.{Result, ok, err}
use lamdis.Store.{Store}
use lamdis.Log.Crypto.{Crypto}
use lamdis.Log.Entry.{Entry, kind_grant, kind_deny, kind_revoke}
use lamdis.Log.Identity.{cut_prefix}
use lamdis.Log.ThreadLog.{ThreadLog}
use lamdis.Perm.Apply.{fold}
use lamdis.Perm.Query.{pending_requests}
use lamdis.Perm.State.{Time, State, AccessRequest}
use lamdis.Owner.Control.{all_valid, grant_fields, denial_fields, author_and_store}

-- the request of handleDecide
pub record Decision : Type 0 where
  pub thread : String
  pub principal : String
  pub decision : String
  pub scopes : List String

pub data PortalReply : Type 0 where
  rejected : ℕ → String → PortalReply
  decided : String → PortalReply

-- the loop over the pending requests: the scopes, and the request's id
unfoldable pub asked_for : String → List AccessRequest → List String → String → List String × String
asked_for principal [] scopes request = (scopes, request)
asked_for principal (r ∷ rest) scopes request =
    asked_for principal rest
      (if r.principal == principal && eqb (length scopes) 0 then r.scopes else scopes)
      (if r.principal == principal then r.entry_id else request)

-- what the switch on the decision leaves to be written: a kind and a body, or a refusal
pub data Plan : Type 0 where
  refuse : String → Plan
  write : String → Fields → Plan

unfoldable pub plan_grant : String → List String × String → Plan
unfolding all_valid grant_fields
plan_grant principal (scopes, request) =
    if eqb (length scopes) 0
    then refuse "no pending request and no scopes given"
    else if not (all_valid scopes)
    then refuse "invalid scope"
    else write kind_grant (grant_fields principal request scopes end)

unfoldable pub plan : State → Decision → Plan
unfolding plan_grant asked_for denial_fields
plan st req =
    if req.decision == "approve"
    then plan_grant req.principal (asked_for req.principal (pending_requests st) req.scopes "")
    else if req.decision == "deny"
    then write kind_deny (denial_fields req.principal)
    else if req.decision == "revoke"
    then write kind_revoke (denial_fields req.principal)
    else refuse "bad decision"

unfoldable pub decide_reply : Result Entry → PortalReply
decide_reply (err x) = rejected 500 "internal error"
decide_reply (ok e) = decided e.id

module _ {S : Type 0} (c : Crypto) (store : Store S) (keep_log : ThreadLog → S → S) (priv : List ℕ)
    (id ts : String) (parse_time : String → Option Time) where
  unfoldable pub carry_out : ThreadLog → Plan → S → PortalReply × S
  unfolding decide_reply author_and_store
  carry_out tl (refuse text) s = (rejected 400 text, s)
  carry_out tl (write kind fields) s =
      let r = author_and_store c store keep_log priv id ts tl kind fields s in
      (decide_reply r.0, r.1)

  unfoldable pub decide_found : Decision → Result ThreadLog → S → PortalReply × S
  unfolding carry_out plan
  decide_found req (err x) s = (rejected 404 "not found", s)
  decide_found req (ok tl) s = carry_out tl (plan (fold parse_time req.thread tl.entries) req) s

  -- handleDecide, of what the body decodes to
  unfoldable pub handle_decide : Option Decision → S → PortalReply × S
  unfolding decide_found
  handle_decide none s = (rejected 400 "bad request", s)
  handle_decide (some req) s =
      if req.thread == "" || req.principal == ""
      then (rejected 400 "bad request", s)
      else decide_found req (store.thread req.thread s).0 (store.thread req.thread s).1

-- authed: the header's text behind "Bearer ", where it is there, is the token
abbrev bearer : List ℕ → List ℕ
bearer header = elim (cut_prefix (codes "Bearer ") header) [ none ↦ header | some rest ↦ rest ]

eq_codes : List ℕ → List ℕ → Bool
eq_codes [] [] = true
eq_codes (a ∷ as') (b ∷ bs) = eqb a b && eq_codes as' bs
eq_codes _ _ = false

unfoldable pub is_authed : String → String → Bool
unfolding eq_codes cut_prefix
is_authed token header =
    not (eqb (length (bearer (codes header))) 0) && eq_codes (bearer (codes header)) (codes token)
