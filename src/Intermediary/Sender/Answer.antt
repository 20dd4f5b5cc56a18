-- ===== src/Intermediary/Sender/Answer.antt =====
-- internal/intermediary/sender.go: which text of a task is the answer.
use svpchain_research_agent.Base.{
  ◌≡◌, ◌≢◌, refl, ap, ◌⊎◌, inl, inr, String, List, [], ◌∷◌, ◌++◌, Option, Bool-cases, eq_iff,
  eqb-false, ◌==◌, string_eq, All,
}
use svpchain_research_agent.Intermediary.Messages.{Message, message_text}
use svpchain_research_agent.Intermediary.Sender.{
  Task, task, agent_text, last_agent_text, result_text,
}

abbrev IsSilent : Option Message → Type 0
IsSilent m = agent_text m ≡ ""

-- The text is of the agent's, is not empty, and after it the agent says nothing.
pub record IsLastSaid (history : List (Option Message)) (text : String) : Type 0 where
  pub before : List (Option Message)
  pub saying : Option Message
  pub after : List (Option Message)
  pub whole : history ≡ before ++ saying ∷ after
  pub said : agent_text saying ≡ text
  pub some_text : text ≢ ""
  pub silence : All IsSilent after

abbrev Said : List (Option Message) → String → Type 0
Said h t = IsLastSaid h t ⊎ All IsSilent h × (t ≡ "")

-- What the entries after this one say decides, where they say anything.
Said-later :
    (m : Option Message) (ms : List (Option Message)) (t : String)
    → t ≢ ""
    → Said ms t
    → Said (m ∷ ms) t
Said-later m ms t more (inl said) = inl (record {
  before = m ∷ said.before;
  saying = said.saying;
  after = said.after;
  whole = ap (λ r. m ∷ r) said.whole;
  said = said.said;
  some_text = more;
  silence = said.silence;
})
Said-later m ms t more (inr (all, nothing)) = absurd (more nothing)

IsSilent-later : (ms : List (Option Message)) (t : String) → t ≡ "" → Said ms t → All IsSilent ms
IsSilent-later ms t nothing (inl said) = absurd (said.some_text nothing)
IsSilent-later ms t nothing (inr (all, h)) = all

last_agent_text-Said : (h : List (Option Message)) → Said h (last_agent_text h)
unfolding last_agent_text
last_agent_text-Said [] = inr (tt, refl)
last_agent_text-Said (m ∷ ms) = elim (Bool-cases (last_agent_text ms == "")) [
  | inl over ↦
      let all =
        IsSilent-later ms (last_agent_text ms) ((eq_iff (last_agent_text ms) "").0 over)
          (last_agent_text-Said ms) in
      rw over (elim (Bool-cases (agent_text m == "")) [
        | inl silent ↦
            let nothing = (eq_iff (agent_text m) "").0 silent in inr ((nothing, all), nothing)
        | inr speaks ↦ inl (record {
          before = [];
          saying = m;
          after = ms;
          whole = refl;
          said = refl;
          some_text = eqb-false (agent_text m) "" speaks;
          silence = all;
        })
      ])
  | inr later ↦ rw later (
      Said-later m ms (last_agent_text ms) (eqb-false (last_agent_text ms) "" later)
        (last_agent_text-Said ms))
]

-- The answer of a task is the text of its status where that is not empty, else the last text of
-- the agent's in its history that is not empty, else nothing.
pub result_text-IsAnswer :
    (t : Task)
    → (message_text t.status_message ≢ "") × (result_text (task t) ≡ message_text t.status_message)
      ⊎ (message_text t.status_message ≡ "") × Said t.history (result_text (task t))
unfolding result_text
result_text-IsAnswer t = elim (Bool-cases (message_text t.status_message == "")) [
  | inl none_there ↦ inr (
    (eq_iff (message_text t.status_message) "").0 none_there,
    rw none_there (last_agent_text-Said t.history),
  )
  | inr there ↦ inl (eqb-false (message_text t.status_message) "" there, rw there refl)
]
