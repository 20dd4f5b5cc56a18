-- ===== src/Intermediary/Sender.antt =====
-- internal/intermediary/sender.go: a task handed on over A2A. The card resolver and the client of
-- the A2A library are the fields of `Transport`, whose world is `S`.
pub mod Carried
pub mod Answer
use svpchain_research_agent.Base.{
  ℕ, String, List, [], ◌∷◌, Option, none, some, Result, ok, wrap, Bytes, M, ◌==◌, string_eq,
  if◌then◌else◌,
}
use svpchain_research_agent.Base.State.{◌>>=◌, pure, on_error}
use svpchain_research_agent.Json.{Json, Items, nil, item, obj, arr, str, end, field}
use svpchain_research_agent.Intermediary.{Reply}
use svpchain_research_agent.Intermediary.Messages.{
  Role, role_user, role_agent, role_other, Message, message_text, delegation_metadata_key,
}

-- a2a.Task
pub record Task : Type 0 where
  pub id : String
  pub state : String
  pub status_message : Option Message
  pub history : List (Option Message)

pub data SendMessageResult : Type 0 where
  message : Message → SendMessageResult
  task : Task → SendMessageResult

pub record Transport (S Card Client : Type 0) : Type 0 where
  pub resolve : String → M S Card
  pub new_from_card : Card → M S Client
  pub send_message : Client → Message → M S SendMessageResult
  -- Go's `string(b)`.
  pub string_of : Bytes → String

-- What an entry of the history says for the agent.
abbrev pub agent_text : Option Message → String
agent_text none = ""
agent_text (some m) = elim m.role [
  | role_agent ↦ message_text (some m)
  | role_user ↦ ""
  | role_other ↦ ""
]

-- The history from its end backwards.
unfoldable pub last_agent_text : List (Option Message) → String
last_agent_text [] = ""
last_agent_text (m ∷ ms) =
    let later = last_agent_text ms in if later == "" then agent_text m else later

unfoldable pub result_text : SendMessageResult → String
unfolding last_agent_text
result_text (message m) = message_text (some m)
result_text (task t) =
    let status = message_text t.status_message in
    if status == "" then last_agent_text t.history else status

unfoldable pub string_items : List String → Items
string_items [] = nil
string_items (s ∷ ss) = item (str s) (string_items ss)

-- The metadata value: the chain under its key.
unfoldable pub carrier_of : List String → Json
unfolding string_items
carrier_of tokens = obj (field "tokens" (arr (string_items tokens)) end)

unfoldable pub task_message : String → List String → Message
unfolding carrier_of
task_message text tokens = record {
  role = role_user;
  task_id = "";
  parts = some text ∷ [];
  metadata = some ((delegation_metadata_key, ok (carrier_of tokens)) ∷ []);
}

unfoldable pub reply_of : SendMessageResult → Reply
unfolding result_text
reply_of (message m) = record {
  task_id = m.task_id;
  state = "";
  response = result_text (message m);
}
reply_of (task t) = record { task_id = t.id; state = t.state; response = result_text (task t) }

unfoldable pub send :
    {S Card Client : Type 0} → Transport S Card Client → String → Bytes → List String → M S Reply
unfolding task_message reply_of
send net endpoint envelope tokens = do
  card ← on_error (wrap "resolve agent card: %w" []) (net.resolve endpoint)
  client ← on_error (wrap "create a2a client: %w" []) (net.new_from_card card)
  result ←
      on_error (wrap "send message: %w" [])
        (net.send_message client (task_message (net.string_of envelope) tokens))
  pure (reply_of result)
