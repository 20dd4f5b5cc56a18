-- ===== src/Delegated/Sequence/Turns.antt =====
-- internal/delegated/service.go: fee-paying transactions take turns.
use svpchain_research_agent.Base.{
  ℕ, ◌≡◌, refl, sym, ◌∙◌, ap, ◌⊎◌, inl, inr, Bool, true, false, List, [], ◌∷◌, Option, none, some,
  ◌==◌, nat_eq, nat_eqb_iff, if◌then◌else◌, arith, Bool-cases,
}
use svpchain_research_agent.Delegated.Sequence.{
  Pc, idle, waiting, entered, ended, has_account, signed, Contact, was_answered, handed_on, System,
  set, may_fail, Step, chain, call, lock, pass, read_account, sign, hand_over, fail, unlock, leave,
  init, Reach, start, later,
}

-- A thread is between the mutex and its way out, or still to let go of it.
abbrev is_inside : Pc → Bool
is_inside idle = false
is_inside waiting = false
is_inside entered = true
is_inside ended = true
is_inside (has_account q) = true
is_inside (signed q) = true

-- The sequence that a thread has read.
abbrev read_of : Pc → Option ℕ
read_of idle = none
read_of waiting = none
read_of entered = none
read_of ended = none
read_of (has_account q) = some q
read_of (signed q) = some q

reader-is_inside : (p : Pc) (q : ℕ) → read_of p ≡ some q → is_inside p ≡ true
reader-is_inside idle q h = absurd (ground arith)
reader-is_inside waiting q h = absurd (ground arith)
reader-is_inside entered q h = refl
reader-is_inside ended q h = refl
reader-is_inside (has_account r) q h = refl
reader-is_inside (signed r) q h = refl

failing-is_inside : (p : Pc) → may_fail p ≡ true → is_inside p ≡ true
failing-is_inside idle h = h
failing-is_inside waiting h = h
failing-is_inside entered h = refl
failing-is_inside ended h = refl
failing-is_inside (has_account r) h = refl
failing-is_inside (signed r) h = refl

abbrev pub thread_of : Contact → ℕ
thread_of (was_answered i q) = i
thread_of (handed_on i q) = i

module _ (gas_free : ℕ → Bool) (first : ℕ) where
  -- The newest contact of a fee-paying call.
  abbrev pub last_paying : List Contact → Option Contact
  last_paying [] = none
  last_paying (c ∷ cs) =
      let rest = last_paying cs in if gas_free (thread_of c) then rest else some c

  -- Each fee-paying transaction, newest first, comes right after the answer to its own call with
  -- the sequence that it carries, but for contacts of gas-free calls.
  abbrev pub AreTurns : List Contact → Type 0
  AreTurns [] = Unit
  AreTurns (was_answered i q ∷ cs) = AreTurns cs
  AreTurns (handed_on i q ∷ cs) =
      ((gas_free i ≡ true) ⊎ (last_paying cs ≡ some (was_answered i q))) × AreTurns cs

  set-cases :
      (f : ℕ → Pc) (i : ℕ) (p : Pc) (j : ℕ)
      → ((set f i p j ≡ p) × (i ≡ j)) ⊎ ((set f i p j ≡ f j) × ((i == j) ≡ false))
  set-cases f i p j = elim (Bool-cases (i == j)) [
    | inl same ↦ inl (rw same refl, (nat_eqb_iff i j).0 same)
    | inr other ↦ inr (rw other refl, other)
  ]

  -- A fee-paying thread inside holds the mutex, and one that has read the account was the last of
  -- them to have to do with the chain; and every transaction so far had its turn.
  record Inv (s : System) : Type 0 where
    owns : (i : ℕ) → gas_free i ≡ false → is_inside (s.pc i) ≡ true → s.holder ≡ some i
    fresh :
        (i q : ℕ)
        → gas_free i ≡ false
        → read_of (s.pc i) ≡ some q
        → last_paying s.log ≡ some (was_answered i q)
    taken : AreTurns s.log

  init-Inv : Inv (init first)
  init-Inv = record {
    owns = λ i f h. absurd (ground arith);
    fresh = λ i q f h. absurd (ground arith);
    taken = tt;
  }

  -- One thread moves. The others are where they were: those inside hold the mutex still, and no
  -- other fee-paying call has since had to do with the chain.
  moved-Inv :
      (s : System) (i : ℕ) (p : Pc) (sequence : ℕ) (holder : Option ℕ) (log : List Contact)
      → Inv s
      → (gas_free i ≡ false → is_inside p ≡ true → holder ≡ some i)
      → ((q : ℕ)
          → gas_free i ≡ false
          → read_of p ≡ some q
          → last_paying log ≡ some (was_answered i q))
      → ((j : ℕ)
          → (i == j) ≡ false
          → gas_free j ≡ false
          → is_inside (s.pc j) ≡ true
          → (holder ≡ some j) × (last_paying log ≡ last_paying s.log))
      → AreTurns log
      → Inv (record { sequence = sequence; holder = holder; pc = set s.pc i p; log = log })
  moved-Inv s i p sequence holder log h own new others all = record {
    owns = λ j paying inside. elim (set-cases s.pc i p j) [
      | inl (at, same) ↦
          own (ap gas_free same ∙ paying) (ap is_inside (sym at) ∙ inside) ∙ ap some same
      | inr (at, other) ↦ (others j other paying (ap is_inside (sym at) ∙ inside)).0
    ];
    fresh = λ j q paying r. elim (set-cases s.pc i p j) [
      | inl (at, same) ↦
          new q (ap gas_free same ∙ paying) (ap read_of (sym at) ∙ r)
          ∙ ap (λ k. some (was_answered k q)) same
      | inr (at, other) ↦
          let read = ap read_of (sym at) ∙ r in
          (others j other paying (reader-is_inside (s.pc j) q read)).1 ∙ h.fresh j q paying read
    ];
    taken = all;
  }

  -- A thread that moves with the mutex and the account left alone.
  quiet-Inv :
      (s : System) (i : ℕ) (p : Pc)
      → Inv s
      → (gas_free i ≡ false → is_inside p ≡ true → s.holder ≡ some i)
      → ((q : ℕ)
          → gas_free i ≡ false
          → read_of p ≡ some q
          → last_paying s.log ≡ some (was_answered i q))
      → Inv (record s { pc = set s.pc i p })
  quiet-Inv s i p h own new =
      moved-Inv s i p s.sequence s.holder s.log h own new
        (λ j other paying inside. (h.owns j paying inside, refl)) h.taken

  -- Two fee-paying threads inside are one.
  alone :
      (s : System) (i j : ℕ)
      → Inv s
      → gas_free i ≡ false
      → is_inside (s.pc i) ≡ true
      → gas_free j ≡ false
      → is_inside (s.pc j) ≡ true
      → i ≡ j
  alone s i j h paying_i inside_i paying_j inside_j =
      let both : some i ≡ some j = sym (h.owns i paying_i inside_i) ∙ h.owns j paying_j inside_j in
      ground arith

  elsewhere :
      (s : System) (i j : ℕ)
      → Inv s
      → gas_free i ≡ false
      → is_inside (s.pc i) ≡ true
      → (i == j) ≡ false
      → gas_free j ≡ false
      → is_inside (s.pc j) ≡ true
      → ⊥
  elsewhere s i j h paying_i inside_i other paying_j inside_j =
      let same = (nat_eqb_iff i j).1 (alone s i j h paying_i inside_i paying_j inside_j) in
      ground arith

  Step-Inv : (s t : System) → Step gas_free s t → Inv s → Inv t
  Step-Inv s t (call i at) h =
      quiet-Inv s i waiting h (λ f n. absurd (ground arith)) (λ q f n. absurd (ground arith))
  Step-Inv s t (lock i at paying free) h =
      moved-Inv s i entered s.sequence (some i) s.log h (λ f n. refl)
        (λ q f n. absurd (ground arith))
        (λ j other paying_j inside. absurd (held j paying_j inside)) h.taken
    where
      held : (j : ℕ) → gas_free j ≡ false → is_inside (s.pc j) ≡ true → ⊥
      held j paying_j inside =
          let own : some j ≡ none = sym (h.owns j paying_j inside) ∙ free in ground arith
  Step-Inv s t (pass i at free) h =
      quiet-Inv s i entered h (λ f n. absurd (ground arith)) (λ q f n. absurd (ground arith))
  Step-Inv s t (read_account i at) h =
      moved-Inv s i (has_account s.sequence) s.sequence s.holder (was_answered i s.sequence ∷ s.log)
        h (λ f n. h.owns i f (ap is_inside at)) (λ q f n. ground arith)
        (λ j other f inside. elim (Bool-cases (gas_free i)) [
          | inl free ↦ (h.owns j f inside, rw free refl)
          | inr paying ↦ absurd (elsewhere s i j h paying (ap is_inside at) other f inside)
        ])
        h.taken
  Step-Inv s t (sign i q at) h =
      quiet-Inv s i (signed q) h (λ f n. h.owns i f (ap is_inside at ∙ refl))
        (λ r f n. h.fresh i r f (ap read_of at ∙ n))
  Step-Inv s t (hand_over i q at) h =
      moved-Inv s i ended s.sequence s.holder (handed_on i q ∷ s.log) h
        (λ f n. h.owns i f (ap is_inside at)) (λ r f n. absurd (ground arith))
        (λ j other f inside. elim (Bool-cases (gas_free i)) [
          | inl free ↦ (h.owns j f inside, rw free refl)
          | inr paying ↦ absurd (elsewhere s i j h paying (ap is_inside at) other f inside)
        ])
        (elim (Bool-cases (gas_free i)) [
          | inl free ↦ (inl free, h.taken)
          | inr paying ↦ (inr (h.fresh i q paying (ap read_of at)), h.taken)
        ])
  Step-Inv s t (fail i may) h =
      quiet-Inv s i ended h (λ f n. h.owns i f (failing-is_inside (s.pc i) may))
        (λ q f n. absurd (ground arith))
  Step-Inv s t (unlock i at paying) h =
      moved-Inv s i idle s.sequence none s.log h (λ f n. absurd (ground arith))
        (λ q f n. absurd (ground arith))
        (λ j other paying_j inside.
          absurd (elsewhere s i j h paying (ap is_inside at) other paying_j inside))
        h.taken
  Step-Inv s t (leave i at free) h =
      quiet-Inv s i idle h (λ f n. absurd (ground arith)) (λ q f n. absurd (ground arith))
  Step-Inv s t (chain sequence) h = record { owns = h.owns; fresh = h.fresh; taken = h.taken }

  Reach-Inv : (s : System) → Reach gas_free first s → Inv s
  Reach-Inv s start = init-Inv
  Reach-Inv s (later r t before step) = Step-Inv r t step (Reach-Inv r before)

  -- However the calls are interleaved and wherever they fail, and whatever the chain does to the
  -- account meanwhile, every fee-paying transaction that is handed on carries the sequence that its
  -- own call was answered, and between that answer and the hand-over no other fee-paying call was
  -- answered one or handed on a transaction.
  pub handed-AreTurns : (s : System) → Reach gas_free first s → AreTurns s.log
  handed-AreTurns s reached = (Reach-Inv s reached).taken

  -- Two fee-paying calls are never both between their reading of the account and the end of their
  -- broadcast.
  inside_alone :
      (s : System)
      → Reach gas_free first s
      → (i j : ℕ) → gas_free i ≡ false
      → is_inside (s.pc i) ≡ true
      → gas_free j ≡ false
      → is_inside (s.pc j) ≡ true
      → i ≡ j
  inside_alone s reached i j paying_i inside_i paying_j inside_j =
      alone s i j (Reach-Inv s reached) paying_i inside_i paying_j inside_j
