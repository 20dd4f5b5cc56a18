-- ===== src/Delegated/Sequence.antt =====
-- internal/delegated/service.go: `seqMu`. Calls of `execute` and of `signAndBroadcastOwn` run at
-- once, each in a thread; a fee-paying one holds the mutex from before it reads the operator's
-- account until it returns. Of the chain there is only the sequence that a query of the account
-- answers with. The chain may change it at any time to any other: BroadcastSync returns once a
-- transaction is checked, which may be refused, and may be committed later.
pub mod Turns
use svpchain_research_agent.Base.{
  ℕ, ◌≡◌, Bool, true, false, List, [], ◌∷◌, Option, none, some, ◌==◌, nat_eq, if◌then◌else◌,
}

-- Where a thread stands: not called, at the mutex, past it, with the account's sequence read, with
-- a transaction signed for it, and on its way out.
pub data Pc : Type 0 where
  idle waiting entered ended : Pc
  has_account signed : (sequence : ℕ) → Pc

-- What a thread has to do with the chain: it was answered the account's sequence, or it handed on a
-- transaction that carries one.
pub data Contact : Type 0 where
  was_answered handed_on : (thread sequence : ℕ) → Contact

pub record System : Type 0 where
  pub sequence : ℕ
  pub holder : Option ℕ
  pub pc : ℕ → Pc
  pub log : List Contact

abbrev pub set : (ℕ → Pc) → ℕ → Pc → ℕ → Pc
set f i p j = if i == j then p else f j

-- A thread that may still return an error: past the mutex and not on its way out.
abbrev pub may_fail : Pc → Bool
may_fail idle = false
may_fail waiting = false
may_fail entered = true
may_fail ended = false
may_fail (has_account q) = true
may_fail (signed q) = true

-- `gas_free` says of each thread what kind of transaction its call makes.
pub data Step (gas_free : ℕ → Bool) (s : System) : System → Type 0 where
  call : (i : ℕ) → s.pc i ≡ idle → Step gas_free s (record s { pc = set s.pc i waiting })
  -- s.seqMu.Lock()
  lock :
      (i : ℕ)
      → s.pc i ≡ waiting
      → gas_free i ≡ false
      → s.holder ≡ none
      → Step gas_free s (record s { holder = some i; pc = set s.pc i entered })
  -- A gas-free call takes no lock.
  pass :
      (i : ℕ)
      → s.pc i ≡ waiting
      → gas_free i ≡ true
      → Step gas_free s (record s { pc = set s.pc i entered })
  read_account :
      (i : ℕ)
      → s.pc i ≡ entered
      → Step gas_free s (record s {
        pc = set s.pc i (has_account s.sequence);
        log = was_answered i s.sequence ∷ s.log;
      })
  sign :
      (i q : ℕ) → s.pc i ≡ has_account q → Step gas_free s (record s { pc = set s.pc i (signed q) })
  -- BroadcastSync, whatever the chain then says.
  hand_over :
      (i q : ℕ)
      → s.pc i ≡ signed q
      → Step gas_free s (record s { pc = set s.pc i ended; log = handed_on i q ∷ s.log })
  -- The account query, the signing or the way to the chain fails.
  fail : (i : ℕ) → may_fail (s.pc i) ≡ true → Step gas_free s (record s { pc = set s.pc i ended })
  -- defer s.seqMu.Unlock()
  unlock :
      (i : ℕ)
      → s.pc i ≡ ended
      → gas_free i ≡ false
      → Step gas_free s (record s { holder = none; pc = set s.pc i idle })
  leave :
      (i : ℕ)
      → s.pc i ≡ ended
      → gas_free i ≡ true
      → Step gas_free s (record s { pc = set s.pc i idle })
  -- The chain goes on.
  chain : (sequence : ℕ) → Step gas_free s (record s { sequence = sequence })

abbrev pub init : ℕ → System
init sequence = record { sequence = sequence; holder = none; pc = λ i. idle; log = [] }

pub data Reach (gas_free : ℕ → Bool) (sequence : ℕ) : System → Type 0 where
  start : Reach gas_free sequence (init sequence)
  later : (s t : System) → Reach gas_free sequence s → Step gas_free s t → Reach gas_free sequence t
