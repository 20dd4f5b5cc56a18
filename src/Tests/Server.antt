-- ===== src/Tests/Server.antt =====
-- A task from its message to its last event, at concrete inputs.
use svpchain_research_agent.Base.{
  ◌≡◌, refl, ◌⊎◌, Bool, true, false, List, [], ◌∷◌, ◌++◌, some, ok, err, Error,
}
use svpchain_research_agent.Intermediary.Log.{}
use svpchain_research_agent.Intermediary.Messages.{Message, delegation_tokens}
use svpchain_research_agent.Intermediary.Sender.{task_message}
use svpchain_research_agent.Intermediary.Sender.Carried.{delegation_tokens-task_message}
use svpchain_research_agent.Intermediary.Server.{
  Request, Printing, ExecutorContext, Yielded, Consumer, handle, execute, skill_research,
  tool_research,
}
use svpchain_research_agent.Intermediary.Server.Handled.{
  IsNoRequest, IsForwarded, handle-IsForwarded,
}
use svpchain_research_agent.Intermediary.Server.Protocol.{
  over, IsRun, AreWanted, past, last_event, execute-IsRun, execute_completes,
}
use svpchain_research_agent.Tests.{proof}
use svpchain_research_agent.Tests.Intermediary.{config, request}

delegation_tokens-task_message_example :
    delegation_tokens (some (task_message "go" proof)) ≡ ok proof
delegation_tokens-task_message_example = delegation_tokens-task_message "go" "AQI=" ("AwQ=" ∷ [])

abbrev asked : Request
asked = record {
  skill = skill_research;
  tool = tool_research;
  args = record {
    topic = "BTC";
    downstream_did = request.downstream_did;
    downstream_endpoint = request.downstream_endpoint;
    envelope = request.envelope;
    narrow = request.narrow;
    fee = some (record { denom = "usvp"; amount = "3" });
  };
}

abbrev printing : Printing
printing = record {
  unmarshal_request = λ s. ok asked;
  marshal_response = λ r. ok r.finding;
  print_error = λ e. "refused";
}

abbrev task : Message
task = task_message "go" proof

abbrev ctx : ExecutorContext
ctx = record { message = some task; has_stored_task = false; task_id = "t1" }

handle-IsForwarded_example :
    ((e : Error) × IsNoRequest printing config (some task)
      × (handle printing config ctx [] ≡ (err e, [])))
    ⊎ IsForwarded printing config ctx []
        (handle printing config ctx []).0
        (handle printing config ctx []).1
handle-IsForwarded_example = handle-IsForwarded printing config ctx []

-- A consumer that keeps what it is given and always wants more.
abbrev keep : Consumer (List (Yielded × Bool))
keep y t = (true, (y, true) ∷ t)

abbrev kept : List (Yielded × Bool) → List (Yielded × Bool)
kept t = t

execute-IsRun_example :
    (ys : List (Yielded × Bool)) × ((execute printing config keep ctx ([], [])).1 ≡ ys ++ [])
    × IsRun printing config ctx [] over ys
    × AreWanted (past ys)
execute-IsRun_example = execute-IsRun printing config ctx [] keep kept (λ y t. refl) []

execute_completes_example :
    ((execute printing config keep ctx ([], [])).0 ≡ (handle printing config ctx []).1)
    × ((ys : List (Yielded × Bool)) × ((execute printing config keep ctx ([], [])).1
          ≡ (last_event printing config ctx [], true) ∷ ys))
execute_completes_example =
    execute_completes printing config ctx [] keep kept (λ y t. refl) task [] refl (λ y t. refl)
