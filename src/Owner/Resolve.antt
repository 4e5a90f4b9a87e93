-- ===== src/Owner/Resolve.antt =====
-- cmd/lamdis/main.go: a thread by its id, a prefix of its id, or a part of its title; a person by the
-- principal id or a peer's name. The case mappings of the strings package are parameters.
use lamdis.Prelude.{
  ℕ, String, Bool, true, false, ◌||◌, Option, none, some, List, [], ◌∷◌, ◌++◌, if◌then◌else◌,
}
use lamdis.Prelude.Eq.{◌==◌, string_eq}
use lamdis.Prelude.Map.{Map, lookup}
use lamdis.Prelude.Text.{codes}
use lamdis.Json.{str, obj, Fields, field, end, RawMessage, one}
use lamdis.Json.Unmarshal.{is_field}
use lamdis.Result.{Result, ok, err, no_such_thread, several_threads, not_a_peer, no_identity}
use lamdis.Exec.{Exec, ◌>>=◌}
use lamdis.Store.{Store}
use lamdis.Log.Identity.{cut_prefix, principal_prefix, public_key}
use lamdis.Log.ThreadLog.{ThreadLog, get}

-- Peer
pub record Peer : Type 0 where
  pub url : String
  pub principal : String

unfoldable pub is_prefix : String → String → Bool
unfolding cut_prefix
is_prefix p s = elim (cut_prefix (codes p) (codes s)) [ none ↦ false | some _ ↦ true ]

-- strings.Contains, on code points
unfoldable pub is_infix : List ℕ → List ℕ → Bool
unfolding cut_prefix
is_infix p [] = elim (cut_prefix p []) [ none ↦ false | some _ ↦ true ]
is_infix p (x ∷ s) =
    let here_ = elim (cut_prefix p (x ∷ s)) as (λ _. Bool) [ none ↦ false | some _ ↦ true ] in
    here_ || is_infix p s

-- resolveWho
unfoldable pub peer_principal : Option Peer → Result String
peer_principal none = err not_a_peer
peer_principal (some p) = if p.principal == "" then err no_identity else ok p.principal

unfoldable pub resolve_who : Map String Peer → String → Result String
unfolding is_prefix peer_principal
resolve_who peers who =
    if is_prefix principal_prefix who
    then elim (public_key who) [ err x ↦ err x | ok _ ↦ ok who ]
    else peer_principal (lookup who peers)

-- peerName
unfoldable pub peer_name : Map String Peer → String → String
peer_name [] principal = ""
peer_name ((name, p) ∷ rest) principal =
    let others = peer_name rest principal in if p.principal == principal then name else others

-- `json.Unmarshal(g.Body, &body)` into a struct with a title: the error is not looked at, and a member
-- of another type leaves the title as it is.
unfoldable pub title_in : Fields → String → String
unfolding is_field
title_in end old = old
title_in (field k (str s) rest) old = title_in rest (if is_field k "title" then s else old)
title_in (field k _ rest) old = title_in rest old

unfoldable pub title_text : RawMessage → String
unfolding title_in
title_text (one (obj fs)) = title_in fs ""
title_text _ = ""

-- what the loop of resolveThread ends with
pub data Found : Type 0 where
  exact : String → Found
  matched : List String → Found

unfoldable pub pick : Found → Result String
pick (exact id) = ok id
pick (matched []) = err no_such_thread
pick (matched (id ∷ [])) = ok id
pick (matched (a ∷ b ∷ rest)) = err several_threads

unfoldable pub title_of_log : String → Result ThreadLog → String
unfolding title_text
title_of_log id (err x) = ""
title_of_log id (ok tl) = elim (get tl id) [ none ↦ "" | some g ↦ title_text g.body ]

module _ {S : Type 0} (store : Store S) (lower upper : String → String) where
  unfoldable pub is_match : String → String → String → Bool
  unfolding is_prefix is_infix
  is_match ref id title =
      is_prefix (upper ref) id || is_infix (codes (lower ref)) (codes (lower title))

  -- the loop over the thread ids
  unfoldable pub scan : String → List String → List String → S → Found × S
  unfolding is_match title_of_log
  scan ref [] matches s = (matched matches, s)
  scan ref (id ∷ ids) matches s =
      let rest =
        scan ref ids
          (if is_match ref id (title_of_log id (store.thread id s).0)
            then matches ++ id ∷ []
            else matches)
          (store.thread id s).1 in
      if id == ref then (exact id, (store.thread id s).1) else rest

  -- resolveThread
  unfoldable pub resolve_thread : String → Exec S String
  unfolding scan pick
  resolve_thread ref = do
    ids ← store.threads
    (λ s. (pick (scan ref ids [] s).0, (scan ref ids [] s).1))
