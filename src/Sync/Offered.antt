-- ===== src/Sync/Offered.antt =====
-- What the client offers to a peer, and what it takes for another thread.
use lamdis.Prelude.{
  ℕ, suc, ◌≤◌, String, ◌≡◌, ◌≢◌, refl, Bool, true, false, ◌&&◌, Option, List, [], ◌∷◌, ltb, arith,
  if_ind,
}
use lamdis.Prelude.Eq.{◌==◌, string_eq}
use lamdis.Prelude.Lists.{All, All-append}
use lamdis.Prelude.Map.{Map, empty, has}
use lamdis.Result.{ok}
use lamdis.Store.{Store}
use lamdis.Log.After.{IsAfter, after-All}
use lamdis.Log.ChainKey.{ChainKey, key_of}
use lamdis.Log.Entry.{Entry, lane_control}
use lamdis.Log.ThreadLog.{ThreadLog, head_seqs, after}
use lamdis.Perm.Apply.{fold}
use lamdis.Perm.State.{Time, State}
use lamdis.Sync.Server.{Head, have_map, seq_or_zero}
use lamdis.Sync.Client.{
  Transport, Client, acts_as_self, offer_from, travels_back, offer, push_back_on, push_back,
}

-- An entry that may travel, and that is newer than what the peer reported for its chain.
pub record MayOffer (travels : ChainKey → Bool) (peer : Map ChainKey ℕ) (e : Entry) : Type 0 where
  pub travels_ : travels (key_of e) ≡ true
  pub newer : suc (seq_or_zero peer (key_of e)) ≤ e.seq

module _ (travels : ChainKey → Bool) (tl : ThreadLog) (peer : Map ChainKey ℕ) where
  in_chain :
      (k : ChainKey) (es : List Entry)
      → travels k ≡ true
      → All (IsAfter k (seq_or_zero peer k)) es
      → All (MayOffer travels peer) es
  in_chain k [] h a = tt
  in_chain k (e ∷ es) h a = (
    record {
      travels_ = rw (a.0.thread, a.0.author, a.0.lane) h;
      newer = rw (a.0.thread, a.0.author, a.0.lane) a.0.later;
    },
    in_chain k es h a.1,
  )

  offer_from-MayOffer :
      (heads : Map ChainKey ℕ) → All (MayOffer travels peer) (offer_from travels tl peer heads)
  unfolding offer_from
  offer_from-MayOffer [] = tt
  offer_from-MayOffer ((k, seq) ∷ heads) =
      if_ind (All (MayOffer travels peer)) (travels k && ltb (seq_or_zero peer k) seq) _ _
        (λ q.
          All-append (MayOffer travels peer) (after tl k (seq_or_zero peer k)) _
            (in_chain k _ (ground (arith, q)) (after-All tl k (seq_or_zero peer k)))
            (offer_from-MayOffer heads))
        (λ _. offer_from-MayOffer heads)

-- An entry that pushBack may offer: of the client's own keys, on the control lane a steward's, and
-- newer than the peer's head.
pub record MayPushBack (c : Client) (st : State) (peer : Map ChainKey ℕ) (e : Entry) : Type 0 where
  pub own : acts_as_self c e.author ≡ true
  pub control : e.lane ≡ lane_control → has st.stewards e.author ≡ true
  pub newer : suc (seq_or_zero peer (key_of e)) ≤ e.seq

travels_back-MayPushBack :
    (c : Client) (st : State) (peer : Map ChainKey ℕ) (es : List Entry)
    → All (MayOffer (travels_back c st) peer) es
    → All (MayPushBack c st peer) es
unfolding travels_back
travels_back-MayPushBack c st peer [] h = tt
travels_back-MayPushBack c st peer (e ∷ es) h = (
  record {
    own = ground (arith, h.0.travels_);
    control = λ q. ground (arith, h.0.travels_, q, string_eq.beq_iff e.lane lane_control);
    newer = h.0.newer;
  },
  travels_back-MayPushBack c st peer es h.1,
)

module _ {S : Type 0} (store : Store S) (peer : Transport S) (parse_time : String → Option Time)
    (c : Client) (thread : String) (heads : List Head) (s : S) (tl : ThreadLog) where
  -- A client with a principal, whose store holds the thread, pushes one batch back to the peer, or
  -- nothing if the batch is empty. The batch has only entries of the client's own keys, on the control
  -- lane only those of stewards, each newer than the head that the peer reported for its chain.
  pub push_back-MayPushBack :
      c.self ≢ ""
      → (store.thread thread s).0 ≡ ok tl
      → (es : List Entry) × (push_back store peer parse_time c thread heads s
          ≡ offer peer thread es (store.thread thread s).1)
        × All (MayPushBack c (fold parse_time thread tl.entries) (have_map thread heads empty)) es
  unfolding push_back push_back_on
  push_back-MayPushBack named found =
      let filled : (c.self == "") ≡ false = ground (arith, named, string_eq.beq_iff c.self "") in
      (
        offer_from (travels_back c st) tl (have_map thread heads empty) (head_seqs tl.heads),
        rw (filled, found, push_back_on) refl,
        travels_back-MayPushBack c st (have_map thread heads empty) _ (
            offer_from-MayOffer (travels_back c st) tl (have_map thread heads empty)
              (head_seqs tl.heads)),
      )
    where
      st : State
      st = fold parse_time thread tl.entries
