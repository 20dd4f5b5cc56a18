-- ===== src/Tests/Sequence.antt =====
-- Fee-paying transactions taking turns, at a concrete interleaving.
use svpchain_research_agent.Base.{ℕ, ◌≡◌, refl, Bool, [], ◌∷◌, leb}
use svpchain_research_agent.Delegated.Sequence.{
  System, Step, call, lock, pass, read_account, sign, hand_over, unlock, chain, init, Reach, start,
  later, was_answered, handed_on,
}
use svpchain_research_agent.Delegated.Sequence.Turns.{AreTurns, handed-AreTurns}

-- The threads 0 and 1 pay, and all others place short-term orders.
abbrev gas_free : ℕ → Bool
gas_free n = leb 2 n

-- Thread 0 goes all its way, while 1 waits and 2 goes past the mutex; the chain commits, and then 1
-- goes in.
record Run : Type 0 where
  state : System
  reached : Reach gas_free 5 state

abbrev next : (r : Run) → (t : System) → Step gas_free r.state t → Run
next r t step = record { state = t; reached = later r.state t r.reached step }

abbrev contended : Run
contended =
    let r0 : Run = record { state = init 5; reached = start } in
    let r1 = next r0 _ (call 0 refl) in
    let r2 = next r1 _ (call 1 refl) in
    let r3 = next r2 _ (call 2 refl) in
    let r4 = next r3 _ (lock 0 refl refl refl) in
    let r5 = next r4 _ (pass 2 refl refl) in
    let r6 = next r5 _ (read_account 0 refl) in
    let r7 = next r6 _ (read_account 2 refl) in
    let r8 = next r7 _ (sign 0 5 refl) in
    let r9 = next r8 _ (hand_over 0 5 refl) in
    let r10 = next r9 _ (sign 2 5 refl) in
    let r11 = next r10 _ (hand_over 2 5 refl) in
    let r12 = next r11 _ (unlock 0 refl refl) in
    let r12a = next r12 _ (chain 6) in
    let r13 = next r12a _ (lock 1 refl refl refl) in
    let r14 = next r13 _ (read_account 1 refl) in
    let r15 = next r14 _ (sign 1 6 refl) in next r15 _ (hand_over 1 6 refl)

three_handed :
    contended.state.log
    ≡ handed_on 1 6
      ∷ was_answered 1 6
      ∷ handed_on 2 5
      ∷ handed_on 0 5
      ∷ was_answered 2 5
      ∷ was_answered 0 5
      ∷ []
three_handed = refl

handed-AreTurns_example : AreTurns gas_free 5 contended.state.log
handed-AreTurns_example = handed-AreTurns gas_free 5 contended.state contended.reached
