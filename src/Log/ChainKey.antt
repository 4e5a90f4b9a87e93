-- ===== src/Log/ChainKey.antt =====
-- log/log.go: the key of a hash chain, one author in one lane of one thread.
use lamdis.Prelude.{String, ◌≡◌, ◌↔◌, Bool, true, ◌&&◌, arith}
use lamdis.Prelude.Eq.{Eq, ◌==◌, string_eq}
use lamdis.Log.Entry.{Lane, Entry}

pub record ChainKey : Type 0 where
  pub thread : String
  pub author : String
  pub lane : Lane

abbrev pub key_beq : ChainKey → ChainKey → Bool
key_beq a b = a.thread == b.thread && a.author == b.author && a.lane == b.lane

to_path : (a b : ChainKey) → a.thread ≡ b.thread → a.author ≡ b.author → a.lane ≡ b.lane → a ≡ b
to_path a b p q r = λ i. record { thread = p i; author = q i; lane = r i }

pub key_beq_iff : (a b : ChainKey) → (key_beq a b ≡ true) ↔ (a ≡ b)
key_beq_iff a b = (
  λ h.
      to_path a b (ground (arith, string_eq.beq_iff a.thread b.thread))
        (ground (arith, string_eq.beq_iff a.author b.author))
        (ground (arith, string_eq.beq_iff a.lane b.lane)),
  λ e. ground (
    arith,
    string_eq.beq_iff a.thread b.thread,
    string_eq.beq_iff a.author b.author,
    string_eq.beq_iff a.lane b.lane,
  ),
)

instance abbrev pub chain_key_eq : Eq ChainKey
chain_key_eq = record { beq = key_beq; beq_iff = key_beq_iff }

-- the chain that an entry belongs to
abbrev pub key_of : Entry → ChainKey
key_of e = record { thread = e.thread; author = e.author; lane = e.lane }
