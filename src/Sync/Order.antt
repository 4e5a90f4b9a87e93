-- ===== src/Sync/Order.antt =====
-- sync/sync.go: the order in which pulled or pushed entries are appended.
use lamdis.Prelude.{ℕ, String, Bool, true, false, not, List, ltb, if◌then◌else◌}
use lamdis.Prelude.Eq.{◌==◌, string_eq}
use lamdis.Prelude.Sort.{insertion_sort}
use lamdis.Prelude.Text.{str_ltb}
use lamdis.Log.Entry.{Entry, Lane, lane_summary, lane_content}

-- `laneRank[lane]`: 0 for control, and for a lane that the map does not hold
abbrev pub lane_rank : Lane → ℕ
lane_rank l = if l == lane_summary then 1 else if l == lane_content then 2 else 0

-- lessAppend, after the test for the genesis entry
abbrev pub less_chain : Entry → Entry → Bool
less_chain a b =
    if ltb (lane_rank a.lane) (lane_rank b.lane)
    then true
    else if ltb (lane_rank b.lane) (lane_rank a.lane)
    then false
    else if not (a.author == b.author)
    then str_ltb a.author b.author
    else ltb a.seq b.seq

-- lessAppend
unfoldable pub less_append : String → Entry → Entry → Bool
less_append thread a b =
    if a.id == thread
    then (if b.id == thread then less_chain a b else true)
    else if b.id == thread
    then false
    else less_chain a b

-- orderForAppend
unfoldable pub order_for_append : List Entry → String → List Entry
unfolding insertion_sort less_append
order_for_append entries thread = insertion_sort (less_append thread) entries
