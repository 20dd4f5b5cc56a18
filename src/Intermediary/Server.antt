-- ===== src/Intermediary/Server.antt =====
-- internal/intermediary/server.go: a task of the agent's, from its message to the events that
-- answer it. Reading a request's text, writing a response and printing an error are the fields of
-- `Printing`; the HTTP server is left out.
pub mod Handled
pub mod Protocol
use svpchain_research_agent.Base.{
  Bool, true, false, ◌&&◌, String, List, [], ◌∷◌, Option, none, some, Result, ok, err, Error,
  errorf, wrap, str, Bytes, M, ◌==◌, string_eq, ◌<>◌, trim_space, if◌then◌else◌,
}
use svpchain_research_agent.Base.Results.{◌>>=◌, ◌>>◌, map_err, guard}
use svpchain_research_agent.Base.State as State
use svpchain_research_agent.Base.State.{lift}
use svpchain_research_agent.Agentchain.Coin.{Coin}
use svpchain_research_agent.Intermediary.{Config, NarrowSpec, ForwardInput, ForwardOutput, forward}
use svpchain_research_agent.Intermediary.Messages.{
  Role, role_agent, Message, message_text, delegation_tokens,
}

abbrev pub skill_research : String
skill_research = "svpchain-research"

abbrev pub tool_research : String
tool_research = "research_and_execute"

pub record CoinArg : Type 0 where
  pub denom : String
  pub amount : String

pub record RequestArgs : Type 0 where
  pub topic : String
  pub downstream_did : String
  pub downstream_endpoint : String
  pub envelope : Bytes
  pub narrow : NarrowSpec
  pub fee : Option CoinArg

pub record Request : Type 0 where
  pub skill : String
  pub tool : String
  pub args : RequestArgs

pub record Response : Type 0 where
  pub skill : String
  pub tool : String
  pub ok : Bool
  pub finding : String
  pub forward : Option ForwardOutput
  pub error : String

pub record Printing : Type 0 where
  pub unmarshal_request : String → Result Request
  pub marshal_response : Response → Result String
  -- `fmt.Sprintf("%v", err)`
  pub print_error : Error → String

unfoldable pub finding : String → String
finding topic =
    let trimmed = trim_space topic in
    if trimmed == ""
    then "no topic given; forwarded the execution leg unchanged"
    else "reviewed " <> trimmed <> "; forwarded the execution leg under a narrowed credential"

abbrev pub fee_coin : Option CoinArg → Option Coin
fee_coin none = none
fee_coin (some f) = some (record { denom = f.denom; amount = f.amount })

unfoldable pub forward_input : Request → List String → ForwardInput
forward_input req tokens = record {
  proof = tokens;
  downstream_did = req.args.downstream_did;
  downstream_endpoint = req.args.downstream_endpoint;
  envelope = req.args.envelope;
  narrow = req.args.narrow;
  fee = fee_coin req.args.fee;
}

unfoldable pub response_of : Request → ForwardOutput → Response
response_of req out = record {
  skill = req.skill;
  tool = req.tool;
  ok = true;
  finding = finding req.args.topic;
  forward = some out;
  error = "";
}

-- a2asrv.ExecutorContext
pub record ExecutorContext : Type 0 where
  pub message : Option Message
  pub has_stored_task : Bool
  pub task_id : String

pub data TaskState : Type 0 where
  working completed canceled : TaskState

pub data Event : Type 0 where
  submitted_task : Message → Event
  status_update : TaskState → Option Message → Event

-- What the sequence yields: an event, or an error.
pub data Yielded : Type 0 where
  event : Event → Yielded
  failed : Error → Yielded

-- A consumer of the sequence: it takes an event and says whether it wants another.
abbrev pub Consumer : Type 0 → Type 0
Consumer S = Yielded → S → Bool × S

module _ {S O : Type 0} (fmt : Printing) (cfg : Config S O) where
  other_service : Error
  other_service =
      errorf "this agent serves %s / %s only" (str skill_research ∷ str tool_research ∷ [])

  -- The part of a task before the forwarding.
  unfoldable pub admit_task : Option Message → Result (Request × List String)
  unfolding other_service
  admit_task message = do
    req ←
        map_err (wrap "request must be JSON naming a skill: %w" [])
          (fmt.unmarshal_request (message_text message))
    guard (req.skill == skill_research && req.tool == tool_research) other_service
    tokens ← delegation_tokens message
    ok (req, tokens)

  unfoldable pub handle : ExecutorContext → M S String
  handle ctx = State.◌>>=◌ (lift (admit_task ctx.message)) λ admitted.
      State.◌>>=◌ (forward cfg (forward_input admitted.0 admitted.1)) λ out.
        lift (
          map_err (wrap "encode result: %w" []) (fmt.marshal_response (response_of admitted.0 out)))

  -- A refusal is an answer too.
  abbrev pub answer_text : Result String → String
  answer_text (ok text) = text
  answer_text (err e) = "error: " <> fmt.print_error e

  abbrev pub reply_to : ExecutorContext → Result String → Message
  reply_to ctx r = record {
    role = role_agent;
    task_id = ctx.task_id;
    parts = some (answer_text r) ∷ [];
    metadata = none;
  }

  module _ {T : Type 0} (yield_to : Consumer T) where
    -- `if !yield(event, nil) { return }`
    abbrev pub if_wanted : Yielded → (S × T → S × T) → S × T → S × T
    if_wanted y rest (s, t) =
        let (wanted, after) = yield_to y t in if wanted then rest (s, after) else (s, after)

    abbrev pub finish : ExecutorContext → S × T → S × T
    finish ctx (s, t) =
        let (r, after) = handle ctx s in
        (after, (yield_to (event (status_update completed (some (reply_to ctx r)))) t).1)

    abbrev pub work : ExecutorContext → S × T → S × T
    work ctx = if_wanted (event (status_update working none)) (finish ctx)

    abbrev execute_with : Option Message → ExecutorContext → S × T → S × T
    execute_with none ctx (s, t) = (s, (yield_to (failed (errorf "empty message" [])) t).1)
    execute_with (some m) ctx st =
        if ctx.has_stored_task
        then work ctx st
        else if_wanted (event (submitted_task m)) (work ctx) st

    unfoldable pub execute : ExecutorContext → S × T → S × T
    execute ctx st = execute_with ctx.message ctx st

    unfoldable pub cancel : ExecutorContext → S × T → S × T
    cancel ctx (s, t) = (s, (yield_to (event (status_update canceled none)) t).1)
