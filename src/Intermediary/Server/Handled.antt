-- ===== src/Intermediary/Server/Handled.antt =====
-- internal/intermediary/server.go: what the handling of one task does.
use svpchain_research_agent.Base.{
  ◌≡◌, ◌≢◌, refl, true, none, some, ◌⊎◌, inl, inr, eq_iff, String, List, [], Option, Result, ok,
  err, Error, arith, wrap, string_eq, trim_space, ◌<>◌, ◌==◌, Bool-cases, eqb-false,
}
use svpchain_research_agent.Base.Results.{map_err, Result-cases}
use svpchain_research_agent.Agentchain.Coin.{Coin}
use svpchain_research_agent.Intermediary.{Config, ForwardInput, ForwardOutput, forward}
use svpchain_research_agent.Intermediary.Messages.{Message, message_text, delegation_tokens}
use svpchain_research_agent.Intermediary.Server.{
  Request, Printing, ExecutorContext, skill_research, tool_research, admit_task, handle,
  forward_input, response_of, finding, fee_coin, CoinArg, Response,
}

module _ {S O : Type 0} (fmt : Printing) (cfg : Config S O) where
  -- A request for the one tool that there is, with a credential in its metadata.
  pub record IsRequest (m : Option Message) (req : Request) (tokens : List String) : Type 0 where
    pub decoded : fmt.unmarshal_request (message_text m) ≡ ok req
    pub skill : req.skill ≡ skill_research
    pub tool : req.tool ≡ tool_research
    pub credential : delegation_tokens m ≡ ok tokens

  admit_task-IsRequest :
      (m : Option Message) (req : Request) (tokens : List String)
      → admit_task fmt cfg m ≡ ok (req, tokens)
      → IsRequest m req tokens
  unfolding admit_task
  admit_task-IsRequest m req tokens h =
      elim (Result-cases (fmt.unmarshal_request (message_text m))) [
        | inr (x, q) ↦ absurd (ground arith)
        | inl (r, q) ↦ elim (Result-cases (delegation_tokens m)) [
          | inr (x, p) ↦ absurd (ground arith)
          | inl (ts, p) ↦ record {
            decoded = ground arith;
            skill = ground (arith, eq_iff r.skill skill_research);
            tool = ground (arith, eq_iff r.tool tool_research);
            credential = ground arith;
          }
        ]
      ]

  abbrev pub IsNoRequest : Option Message → Type 0
  IsNoRequest m = (req : Request) (tokens : List String) → IsRequest m req tokens → ⊥

  refused : {A : Type 0} {a : A} {r : Result A} (e : Error) → r ≡ err e → r ≡ ok a → ⊥
  refused e q p = ground arith

  IsRequest-admit_task :
      (m : Option Message) (req : Request) (tokens : List String)
      → IsRequest m req tokens
      → admit_task fmt cfg m ≡ ok (req, tokens)
  unfolding admit_task
  IsRequest-admit_task m req tokens h =
      let skill = (eq_iff req.skill skill_research).1 h.skill in
      let tool = (eq_iff req.tool tool_research).1 h.tool in
      let decoded = h.decoded in let credential = h.credential in ground arith

  -- What a fee in a request comes to.
  abbrev pub IsFee : Option CoinArg → Option Coin → Type 0
  IsFee none got = got ≡ none
  IsFee (some f) got = got ≡ some (record { denom = f.denom; amount = f.amount })

  -- The forwarding hands on the credential, and of the request the next hop, the envelope, the
  -- narrowing and the fee.
  pub record IsInput (req : Request) (tokens : List String) (given : ForwardInput) : Type 0 where
    pub proof : given.proof ≡ tokens
    pub downstream_did : given.downstream_did ≡ req.args.downstream_did
    pub downstream_endpoint : given.downstream_endpoint ≡ req.args.downstream_endpoint
    pub envelope : given.envelope ≡ req.args.envelope
    pub narrow : given.narrow ≡ req.args.narrow
    pub fee : IsFee req.args.fee given.fee

  forward_input-IsInput :
      (req : Request) (tokens : List String) → IsInput req tokens (forward_input req tokens)
  unfolding forward_input
  forward_input-IsInput req tokens = record {
    proof = refl;
    downstream_did = refl;
    downstream_endpoint = refl;
    envelope = refl;
    narrow = refl;
    fee = fee_coin-IsFee req.args.fee;
  }
    where
      fee_coin-IsFee : (f : Option CoinArg) → IsFee f (fee_coin f)
      fee_coin-IsFee none = refl
      fee_coin-IsFee (some f) = refl

  -- The finding reports the topic without its surrounding space, or that there is none.
  abbrev pub IsFinding : String → String → Type 0
  IsFinding topic text =
      ((trim_space topic ≡ "") × (text ≡ "no topic given; forwarded the execution leg unchanged"))
      ⊎ ((trim_space topic ≢ "")
          × (text
              ≡ "reviewed "
                <> trim_space topic
                <> "; forwarded the execution leg under a narrowed credential"))

  -- The response names the request's skill and tool, says that it went well, and carries a finding
  -- and the output of the forwarding.
  pub record IsResponse (req : Request) (out : ForwardOutput) (said : Response) : Type 0 where
    pub skill : said.skill ≡ req.skill
    pub tool : said.tool ≡ req.tool
    pub went_well : said.ok ≡ true
    pub has_finding : IsFinding req.args.topic said.finding
    pub carries : said.forward ≡ some out
    pub no_error : said.error ≡ ""

  finding-IsFinding : (topic : String) → IsFinding topic (finding topic)
  unfolding finding
  finding-IsFinding topic = elim (Bool-cases (trim_space topic == "")) [
    | inl q ↦ inl ((eq_iff (trim_space topic) "").0 q, rw q refl)
    | inr q ↦ inr (eqb-false (trim_space topic) "" q, rw q refl)
  ]

  response_of-IsResponse :
      (req : Request) (out : ForwardOutput) → IsResponse req out (response_of req out)
  unfolding response_of
  response_of-IsResponse req out = record {
    skill = refl;
    tool = refl;
    went_well = refl;
    has_finding = finding-IsFinding req.args.topic;
    carries = refl;
    no_error = refl;
  }

  -- The forwarding that a request asks for was done, and its outcome is the answer.
  pub record IsForwarded (ctx : ExecutorContext) (s : S) (r : Result String) (after : S)
      : Type 0 where
    pub req : Request
    pub tokens : List String
    pub asked : IsRequest ctx.message req tokens
    pub given : ForwardInput
    pub is_input : IsInput req tokens given
    pub done : after ≡ (forward cfg given s).1
    pub answer :
        ((e : Error) × ((forward cfg given s).0 ≡ err e) × (r ≡ err e))
        ⊎ ((out : ForwardOutput) × ((forward cfg given s).0 ≡ ok out)
            × (said : Response) × IsResponse req out said
            × (r ≡ map_err (wrap "encode result: %w" []) (fmt.marshal_response said)))

  -- A message that is no request for the one tool with a credential in its metadata is refused with
  -- nothing done. Any other is forwarded once, with the credential and with the hop, envelope,
  -- narrowing and fee that it asks for; and the answer is the forwarding's error, or the response
  -- that names the skill and the tool, reports success and a finding, and carries the output.
  pub handle-IsForwarded :
      (ctx : ExecutorContext) (s : S)
      → ((e : Error) × IsNoRequest ctx.message × (handle fmt cfg ctx s ≡ (err e, s)))
        ⊎ IsForwarded ctx s (handle fmt cfg ctx s).0 (handle fmt cfg ctx s).1
  unfolding handle
  handle-IsForwarded ctx s = elim (Result-cases (admit_task fmt cfg ctx.message)) [
    | inr (e, q) ↦ inl (
      e,
      λ req tokens asked. refused e q (IsRequest-admit_task ctx.message req tokens asked),
      ground arith,
    )
    | inl ((req, tokens), q) ↦ elim (Result-cases (forward cfg (forward_input req tokens) s).0) [
      | inr (e, p) ↦ inr (record {
        req = req;
        tokens = tokens;
        asked = admit_task-IsRequest ctx.message req tokens q;
        given = forward_input req tokens;
        is_input = forward_input-IsInput req tokens;
        done = ground arith;
        answer = inl (e, p, ground arith);
      })
      | inl (out, p) ↦ inr (record {
        req = req;
        tokens = tokens;
        asked = admit_task-IsRequest ctx.message req tokens q;
        given = forward_input req tokens;
        is_input = forward_input-IsInput req tokens;
        done = ground arith;
        answer = inr (out, p, response_of req out, response_of-IsResponse req out, ground arith);
      })
    ]
  ]
