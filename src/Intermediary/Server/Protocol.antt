-- ===== src/Intermediary/Server/Protocol.antt =====
-- internal/intermediary/server.go: the events of a task, as the steps of a state machine.
use svpchain_research_agent.Base.{
  ◌≡◌, refl, ◌⊎◌, inl, inr, Bool, true, false, Bool-cases, List, [], ◌∷◌, ◌++◌, none, some, errorf,
  All, ◌≢◌, Option-cases, if◌then◌else◌,
}
use svpchain_research_agent.Intermediary.{Config}
use svpchain_research_agent.Intermediary.Messages.{Message}
use svpchain_research_agent.Intermediary.Server.{
  Printing, ExecutorContext, submitted_task, status_update, working, completed, Yielded, event,
  failed, Consumer, handle, reply_to, execute, work, finish, if_wanted,
}

-- Where the sequence stands: at its start, submitted, at work, or over.
pub data Phase : Type 0 where
  start submitted at_work over : Phase

abbrev next : Bool → Phase → Phase
next wanted p = if wanted then p else over

abbrev pub AreWanted : List (Yielded × Bool) → Type 0
AreWanted ys = All (λ (y : Yielded × Bool). y.1 ≡ true) ys

-- The events before the last one.
abbrev pub past : List (Yielded × Bool) → List (Yielded × Bool)
past [] = []
past (y ∷ ys) = ys

module _ {S O : Type 0} (fmt : Printing) (cfg : Config S O) (ctx : ExecutorContext) (s : S) where
  abbrev pub last_event : Yielded
  last_event =
      event (status_update completed (some (reply_to fmt cfg ctx (handle fmt cfg ctx s).0)))

  -- One event and whether the consumer wanted another after it. Where it did not, it is the last.
  pub data IsStep : Phase → Yielded × Bool → Phase → Type 0 where
    refuse :
        (b : Bool) → ctx.message ≡ none → IsStep start (failed (errorf "empty message" []), b) over
    submit :
        (m : Message) (b : Bool)
        → ctx.message ≡ some m
        → ctx.has_stored_task ≡ false
        → IsStep start (event (submitted_task m), b) (next b submitted)
    resume :
        (m : Message) (b : Bool)
        → ctx.message ≡ some m
        → ctx.has_stored_task ≡ true
        → IsStep start (event (status_update working none), b) (next b at_work)
    take_up : (b : Bool) → IsStep submitted (event (status_update working none), b) (next b at_work)
    complete : (b : Bool) → IsStep at_work (last_event, b) over

  -- The events so far, the last one first.
  pub data IsRun : Phase → List (Yielded × Bool) → Type 0 where
    begin : IsRun start []
    followed :
        (p q : Phase) (y : Yielded × Bool) (ys : List (Yielded × Bool))
        → IsRun p ys
        → IsStep p y q
        → IsRun q (y ∷ ys)

  step-over : (p q : Phase) (y : Yielded × Bool) → IsStep p y q → p ≢ over
  step-over start q y step = λ h. cc
  step-over submitted q y step = λ h. cc
  step-over at_work q y step = λ h. cc
  step-over over q y step = elim step [ ]

  step-wanted : (p q : Phase) (y : Yielded × Bool) → IsStep p y q → (y.1 ≡ true) ⊎ (q ≡ over)
  step-wanted p q y (refuse b h) = inr refl
  step-wanted p q y (submit m true h k) = inl refl
  step-wanted p q y (submit m false h k) = inr refl
  step-wanted p q y (resume m true h k) = inl refl
  step-wanted p q y (resume m false h k) = inr refl
  step-wanted p q y (take_up true) = inl refl
  step-wanted p q y (take_up false) = inr refl
  step-wanted p q y (complete b) = inr refl

  live-AreWanted : (p : Phase) (ys : List (Yielded × Bool)) → IsRun p ys → AreWanted ys ⊎ (p ≡ over)
  live-AreWanted p ys begin = inl tt
  live-AreWanted p ys (followed q r y zs run step) = elim (live-AreWanted q zs run) [
    | inr h ↦ absurd (step-over q r y step h)
    | inl all ↦ elim (step-wanted q r y step) [ inl w ↦ inl (w, all) | inr h ↦ inr h ]
  ]

  run-AreWanted : (p : Phase) (ys : List (Yielded × Bool)) → IsRun p ys → AreWanted (past ys)
  run-AreWanted p ys begin = tt
  run-AreWanted p ys (followed q r y zs run step) = elim (live-AreWanted q zs run) [
    | inl all ↦ all
    | inr h ↦ absurd (step-over q r y step h)
  ]

  -- What is left to do is done from the phase that the events so far have led to.
  module _ {T : Type 0} (yield_to : Consumer T) (log : T → List (Yielded × Bool))
      (logs : (y : Yielded) (t : T) → log (yield_to y t).1 ≡ (y, (yield_to y t).0) ∷ log t) where
    abbrev Reaches : T → List (Yielded × Bool) → Type 0
    Reaches t old = (ys : List (Yielded × Bool)) × IsRun over ys × (log t ≡ ys ++ old)

    finish-Reaches :
        (t : T) (ys old : List (Yielded × Bool))
        → IsRun at_work ys
        → log t ≡ ys ++ old
        → Reaches (finish fmt cfg yield_to ctx (s, t)).1 old
    finish-Reaches t ys old run h =
        let y = last_event in
        (
          (y, (yield_to y t).0) ∷ ys,
          followed at_work over (y, (yield_to y t).0) ys run (complete (yield_to y t).0),
          rw (logs y t, h) refl,
        )

    wanted-Reaches :
        (y : Yielded) (rest : S × T → S × T) (p q : Phase) (t : T) (ys old : List (Yielded × Bool))
        → IsRun p ys
        → log t ≡ ys ++ old
        → IsStep p (y, (yield_to y t).0) (next (yield_to y t).0 q)
        → ((t₁ : T)
            → IsRun q ((y, true) ∷ ys)
            → log t₁ ≡ (y, true) ∷ ys ++ old
            → Reaches (rest (s, t₁)).1 old)
        → Reaches (if_wanted fmt cfg yield_to y rest (s, t)).1 old
    wanted-Reaches y rest p q t ys old run h step onward = elim (Bool-cases (yield_to y t).0) [
      | inl more ↦ rw more (
          onward (yield_to y t).1 (followed p q (y, true) ys run (rw more at step))
            (rw (logs y t, more, h) refl))
      | inr no_more ↦ rw no_more (
        (y, false) ∷ ys,
        followed p over (y, false) ys run (rw no_more at step),
        rw (logs y t, no_more, h) refl,
      )
    ]

    work-Reaches :
        (p : Phase) (t : T) (ys old : List (Yielded × Bool))
        → IsRun p ys
        → log t ≡ ys ++ old
        → IsStep p
            (
              event (status_update working none),
              (yield_to (event (status_update working none)) t).0,
            )
            (next (yield_to (event (status_update working none)) t).0 at_work)
        → Reaches (work fmt cfg yield_to ctx (s, t)).1 old
    work-Reaches p t ys old run h step =
        let y = event (status_update working none) in
        wanted-Reaches y (finish fmt cfg yield_to ctx) p at_work t ys old run h step
          λ t₁ run₁ h₁. finish-Reaches t₁ ((y, true) ∷ ys) old run₁ h₁

    execute-Reaches : (t : T) → Reaches (execute fmt cfg yield_to ctx (s, t)).1 (log t)
    unfolding execute
    execute-Reaches t = elim (Option-cases ctx.message) [
      | inl q ↦
          let y = failed (errorf "empty message" []) in
          let b = (yield_to y t).0 in
          let run : execute fmt cfg yield_to ctx (s, t) ≡ (s, (yield_to y t).1) = rw q refl in
          rw run ((y, b) ∷ [], followed start over (y, b) [] begin (refuse b q), rw (logs y t) refl)
      | inr (m, q) ↦ elim (Bool-cases ctx.has_stored_task) [
        | inl stored ↦
            let b = (yield_to (event (status_update working none)) t).0 in
            let run : execute fmt cfg yield_to ctx (s, t) ≡ work fmt cfg yield_to ctx (s, t) =
              rw (q, stored) refl in
            rw run (work-Reaches start t [] (log t) begin refl (resume m b q stored))
        | inr fresh ↦
            let y = event (submitted_task m) in
            let rest = work fmt cfg yield_to ctx in
            let run : execute fmt cfg yield_to ctx (s, t)
                ≡ if_wanted fmt cfg yield_to y rest (s, t) =
              rw (q, fresh) refl in
            rw run (
              wanted-Reaches y (work fmt cfg yield_to ctx) start submitted t [] (log t) begin refl
                (submit m (yield_to y t).0 q fresh)
                λ t₁ run h.
                  work-Reaches submitted t₁ ((y, true) ∷ []) (log t) run h
                    (take_up (yield_to (event (status_update working none)) t₁).0))
      ]
    ]

    -- The events of a task are those of a run of the state machine from its start to its end, with
    -- the handler's answer in the last; and after an event that the consumer refused there is none.
    pub execute-IsRun :
        (t : T)
        → (ys : List (Yielded × Bool)) × (log (execute fmt cfg yield_to ctx (s, t)).1 ≡ ys ++ log t)
          × IsRun over ys
          × AreWanted (past ys)
    execute-IsRun t =
        let (ys, run, h) = execute-Reaches t in (ys, h, run, run-AreWanted over ys run)

    -- A task with a message whose consumer wants every event is handled, and the last of its events
    -- is the completed task with the handler's answer or error.
    pub execute_completes :
        (m : Message) (t : T)
        → ctx.message ≡ some m
        → ((y : Yielded) (t₁ : T) → (yield_to y t₁).0 ≡ true)
        → ((execute fmt cfg yield_to ctx (s, t)).0 ≡ (handle fmt cfg ctx s).1)
          × ((ys : List (Yielded × Bool)) × (log (execute fmt cfg yield_to ctx (s, t)).1
                ≡ (last_event, true) ∷ ys))
    unfolding execute
    execute_completes m t q always =
        let w = event (status_update working none) in
        let first = event (submitted_task m) in
        elim (Bool-cases ctx.has_stored_task) [
          | inl stored ↦
              let t₁ = (yield_to w t).1 in
              let run : execute fmt cfg yield_to ctx (s, t) ≡ finish fmt cfg yield_to ctx (s, t₁) =
                rw (q, stored, always w t) refl in
              rw run (refl, finished t₁)
          | inr fresh ↦
              let t₁ = (yield_to w (yield_to first t).1).1 in
              let run : execute fmt cfg yield_to ctx (s, t) ≡ finish fmt cfg yield_to ctx (s, t₁) =
                rw (q, fresh, always first t, always w (yield_to first t).1) refl in
              rw run (refl, finished t₁)
        ]
      where
        finished :
            (t₁ : T)
            → (ys : List (Yielded × Bool)) × (log (finish fmt cfg yield_to ctx (s, t₁)).1
                ≡ (last_event, true) ∷ ys)
        finished t₁ = (log t₁, rw (logs last_event t₁, always last_event t₁) refl)
