-- ===== src/Perm/Lanes.antt =====
-- Which lanes a principal may replicate, by the scopes it holds.
use lamdis.Prelude.{◌≡◌, refl, ◌||◌, [], ◌∷◌, eqb, arith, not}
use lamdis.Prelude.Eq.{string_eq}
use lamdis.Prelude.Lists.{length}
use lamdis.Prelude.Map.{lookup, has}
use lamdis.Log.Entry.{lane_control, lane_summary, lane_content}
use lamdis.Perm.Scope.{ScopeSet, scope_read, scope_summary, lanes_of}
use lamdis.Sync.Server.{permits}

-- Content is open exactly to read, summaries to read or summary, control to any scope at all, and no
-- other lane to anyone.
pub permits-lanes_of :
    (ss : ScopeSet)
    → (permits (lanes_of ss) lane_content ≡ has ss scope_read)
      × (permits (lanes_of ss) lane_summary ≡ (has ss scope_read || has ss scope_summary))
      × (permits (lanes_of ss) lane_control ≡ not (eqb (length ss) 0))
unfolding lanes_of permits
permits-lanes_of [] = unfold lookup in (refl, refl, refl)
permits-lanes_of (s ∷ ss) = (ground arith, ground arith, ground arith)
