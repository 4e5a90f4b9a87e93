-- ===== src/Log/Entry.antt =====
-- log/entry.go: lanes, kinds, references and the entry, with the total order of entries.
use lamdis.Prelude.{
  ℕ, String, Bool, true, false, ◌&&◌, ◌||◌, not, Option, none, some, List, ltb, eqb, if◌then◌else◌,
}
use lamdis.Prelude.Int.{ℤ}
use lamdis.Prelude.Eq.{◌==◌, string_eq}
use lamdis.Prelude.Text.{str_ltb}
use lamdis.Prelude.Lists.{length}
use lamdis.Json.{RawMessage}

-- A lane is any string on the wire; three are valid.
abbrev pub Lane : Type 0
Lane = String

abbrev pub lane_control : Lane
lane_control = "control"

abbrev pub lane_summary : Lane
lane_summary = "summary"

abbrev pub lane_content : Lane
lane_content = "content"

unfoldable pub valid_lane : Lane → Bool
valid_lane l = l == lane_control || l == lane_summary || l == lane_content

abbrev pub genesis_prev : String
genesis_prev = "0000000000000000000000000000000000000000000000000000000000000000"

abbrev pub kind_thread : String
kind_thread = "core.thread"

abbrev pub kind_message : String
kind_message = "core.message"

abbrev pub kind_membership : String
kind_membership = "core.membership"

abbrev pub kind_delegation : String
kind_delegation = "core.delegation"

abbrev pub kind_access_request : String
kind_access_request = "core.access_request"

abbrev pub kind_grant : String
kind_grant = "core.grant"

abbrev pub kind_deny : String
kind_deny = "core.deny"

abbrev pub kind_revoke : String
kind_revoke = "core.revoke"

abbrev pub kind_summary : String
kind_summary = "core.summary"

abbrev pub kind_thread_card : String
kind_thread_card = "core.thread_card"

abbrev pub kind_redaction : String
kind_redaction = "core.redaction"

unfoldable pub core_kind : String → Bool
core_kind k =
    k == kind_thread
    || k == kind_message
    || k == kind_membership
    || k == kind_delegation
    || k == kind_access_request
    || k == kind_grant
    || k == kind_deny
    || k == kind_revoke
    || k == kind_summary
    || k == kind_thread_card
    || k == kind_redaction

pub record Covers : Type 0 where
  pub from : String
  pub to : String

pub record Refs : Type 0 where
  pub derived_from : List String
  pub replies_to : String
  pub supersedes : String
  pub covers : Option Covers

unfoldable pub refs_empty : Option Refs → Bool
refs_empty none = true
refs_empty (some r) =
    eqb (length r.derived_from) 0
    && r.replies_to == ""
    && r.supersedes == ""
    && elim r.covers [ none ↦ true | some _ ↦ false ]

-- An entry as the envelope carries it; `on_behalf_of` and `sig` are "" where they are missing.
pub record Entry : Type 0 where
  pub v : ℤ
  pub id : String
  pub thread : String
  pub kind : String
  pub lane : Lane
  pub author : String
  pub on_behalf_of : String
  pub seq : ℕ
  pub lamport : ℕ
  pub prev : String
  pub ts : String
  pub refs : Option Refs
  pub body : RawMessage
  pub sig : String

-- The total order: (lamport, author, id).
unfoldable pub less : Entry → Entry → Bool
less a b =
    if not (eqb a.lamport b.lamport)
    then ltb a.lamport b.lamport
    else if not (a.author == b.author)
    then str_ltb a.author b.author
    else str_ltb a.id b.id
