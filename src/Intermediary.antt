-- ===== src/Intermediary.antt =====
-- internal/intermediary: the middle hop of a delegation. It verifies a credential, charges its own
-- fee, narrows the credential and hands the execution leg on. `S` is the state of the process and
-- of what it talks to; the verifier, the recorder and the sender are the Go interfaces of Config.
pub mod Narrow
pub mod Minting
pub mod Still
pub mod Log
pub mod Chain
pub mod Traced
pub mod Forward
pub mod Messages
pub mod Sender
pub mod Server
use svpchain_research_agent.Base.{
  ℕ, ℤ, pos, Bool, true, false, not, ◌||◌, String, List, [], ◌∷◌, ◌++◌, map, Option, none, some,
  Result, ok, err, Error, errorf, wrap, panic, str, Bytes, M, ◌==◌, string_eq, null, get_last?,
  length, ltb_ℤ, add64, trim_space, if◌then◌else◌,
}
use svpchain_research_agent.Base.Base64.{encode}
use svpchain_research_agent.Base.Decimal.{set_string, to_string}
use svpchain_research_agent.Base.Results
use svpchain_research_agent.Base.Results.{map_err, or_fail}
use svpchain_research_agent.Base.State.{◌>>=◌, ◌>>◌, lift, check, pure, on_error, throw}
use svpchain_research_agent.Svpdt.{Caveats, Token, Verified, AttenuateParams, DtCoin}
use svpchain_research_agent.Agentchain.Coin.{Coin}
use svpchain_research_agent.Delegated.Execute.{ExecResult}
use svpchain_research_agent.Delegated.Settlement.{ExecRecordSpendInput}

pub record Reply : Type 0 where
  pub task_id : String
  pub state : String
  pub response : String

-- intermediary.Config, with the functions of the credential library that the role calls.
pub record Config (S O : Type 0) : Type 0 where
  pub agent_id : String
  pub verify : List String → M S (List Bytes × Verified O)
  pub send : String → Bytes → List String → M S Reply
  pub spend : Option (ExecRecordSpendInput → M S ExecResult)
  pub now : M S ℤ
  pub draw_nonce : M S Bytes
  pub attenuate : AttenuateParams O → M S (Token O × Bytes)
  pub allows : O → String → Bool
  pub constrained_to : List String → Result O
  pub new_string_set : List String → Result (List String)
  pub new_uint32_set : List ℕ → List ℕ
  pub new_coins : List DtCoin → Result (List DtCoin)

pub record NarrowSpec : Type 0 where
  pub actions : List String
  pub subaccounts : List ℕ
  pub budget : Option Coin
  pub svc_budget : Option Coin
  pub ttl_seconds : ℤ

pub record ForwardInput : Type 0 where
  pub proof : List String
  pub downstream_did : String
  pub downstream_endpoint : String
  pub envelope : Bytes
  pub narrow : NarrowSpec
  pub fee : Option Coin

pub record Grant : Type 0 where
  pub actions : List String
  pub subaccounts : List ℕ
  pub budget : List Coin
  pub svc_budget : List Coin
  pub settlement : String
  pub expires : ℤ
  pub redelegable : Bool

pub record ForwardOutput : Type 0 where
  pub principal : String
  pub depth : ℕ
  pub child_grant : Grant
  pub recorded : Option Coin
  pub reply : Reply

unfoldable pub coins_view : List DtCoin → List Coin
coins_view cs = map (λ c. record { denom = c.denom; amount = to_string c.amount }) cs

unfoldable pub grant_view : {O : Type 0} → Caveats O → Grant
unfolding coins_view
grant_view c = record {
  actions = c.actions;
  subaccounts = c.subaccounts;
  budget = coins_view c.budget;
  svc_budget = coins_view c.svc_budget;
  settlement = c.settlement;
  expires = c.expires;
  redelegable = c.redelegable;
}

-- xs[len(xs)-1]
abbrev pub last_of : {A : Type 0} → List A → Result A
last_of xs = or_fail (get_last? xs) (panic "index out of range")

module _ {S O : Type 0} (cfg : Config S O) where
  unfoldable pub to_dt_coins : Coin → Result (List DtCoin)
  to_dt_coins c =
      Results.◌>>=◌
        (or_fail (set_string (trim_space c.amount))
          (errorf "amount %q is not a base-10 integer" (str c.amount ∷ [])))
        λ amount. cfg.new_coins (record { denom = trim_space c.denom; amount = amount } ∷ [])

  abbrev pub narrow_actions : List String → List String → Result (List String)
  narrow_actions held [] = ok held
  narrow_actions held (a ∷ r) = map_err (wrap "narrow actions: %w" []) (cfg.new_string_set (a ∷ r))

  abbrev pub narrow_subaccounts : List ℕ → List ℕ → List ℕ
  narrow_subaccounts held [] = held
  narrow_subaccounts held (n ∷ r) = cfg.new_uint32_set (n ∷ r)

  abbrev pub narrow_coins : String → List DtCoin → Option Coin → Result (List DtCoin)
  narrow_coins what held none = ok held
  narrow_coins what held (some c) = map_err (wrap what []) (to_dt_coins c)

  abbrev pub earlier : ℤ → ℤ → ℤ
  earlier held exp = if ltb_ℤ exp held then exp else held

  -- The clock is read only for a lifetime above zero; its sum with the lifetime wraps.
  unfoldable pub narrow_expires : ℤ → ℤ → M S ℤ
  narrow_expires held ttl =
      if ltb_ℤ (pos 0) ttl then (cfg.now >>= λ t. pure (earlier held (add64 t ttl))) else pure held

  unfoldable pub narrow : Caveats O → NarrowSpec → M S (Caveats O)
  narrow parent spec = do
    empty ← lift (map_err (wrap "empty redelegate_to: %w" []) (cfg.constrained_to []))
    actions ← lift (narrow_actions parent.actions spec.actions)
    budget ← lift (narrow_coins "narrow budget: %w" parent.budget spec.budget)
    svc_budget ← lift (narrow_coins "narrow svc_budget: %w" parent.svc_budget spec.svc_budget)
    expires ← narrow_expires parent.expires spec.ttl_seconds
    pure (record parent {
      redelegable = false;
      redelegate_to = empty;
      actions = actions;
      subaccounts = narrow_subaccounts parent.subaccounts spec.subaccounts;
      budget = budget;
      svc_budget = svc_budget;
      expires = expires;
    })

  -- What this agent charges for its own work, before anything goes on.
  charge_with :
      Option (ExecRecordSpendInput → M S ExecResult) → List String → Option Coin → M S (Option Coin)
  charge_with recorder proof none = pure none
  charge_with none proof (some fee) =
      throw (errorf "this deployment cannot record spend: no settlement recorder configured" [])
  charge_with (some recorder) proof (some fee) = do
    res ←
        on_error (wrap "record own fee: %w" [])
          (recorder (record { proof = proof; spend = record { settlement_id = ""; amount = fee } }))
    pure (some fee)

  unfoldable pub charge : List String → Option Coin → M S (Option Coin)
  unfolding charge_with
  charge proof fee = charge_with cfg.spend proof fee

  -- Steps 1 and 2: the inbound chain, and whether its leaf may be passed on to this target.
  unfoldable pub admit : ForwardInput → M S (List Bytes × Verified O × Token O)
  admit req = do
    check (not (trim_space req.downstream_did == "" || trim_space req.downstream_endpoint == ""))
        (errorf "downstream_did and downstream_endpoint are required" [])
    check (not (null req.envelope)) (errorf "envelope is required" [])
    (tokens, verified) ← cfg.verify req.proof
    leaf ← lift (last_of verified.tokens)
    check leaf.payload.caveats.redelegable
        (errorf "the credential is not re-delegable: its issuer did not authorise passing it on" [])
    check (cfg.allows leaf.payload.caveats.redelegate_to req.downstream_did)
        (errorf "the credential does not allow re-delegating to %s" (str req.downstream_did ∷ []))
    pure (tokens, verified, leaf)

  abbrev pub child_params : ForwardInput → Bytes → Caveats O → Bytes → AttenuateParams O
  child_params req parent caveats nonce = record {
    parent = parent;
    issuer = cfg.agent_id;
    audience = trim_space req.downstream_did;
    caveats = caveats;
    nonce = nonce;
  }

  -- Step 4: the child credential.
  unfoldable pub mint : ForwardInput → List Bytes → Token O → M S (Token O × Bytes)
  mint req tokens leaf = do
    caveats ← narrow leaf.payload.caveats req.narrow
    parent ← lift (last_of tokens)
    nonce ← cfg.draw_nonce
    on_error (wrap "attenuate for %s: %w" (str req.downstream_did ∷ []))
        (cfg.attenuate (child_params req parent caveats nonce))

  -- Step 5: the whole chain travels, root first.
  abbrev pub forwarded_chain : ForwardInput → Bytes → List String
  forwarded_chain req encoded = req.proof ++ encode encoded ∷ []

  unfoldable pub forward : ForwardInput → M S ForwardOutput
  forward req = do
    (tokens, verified, leaf) ← admit req
    recorded ← charge req.proof req.fee
    (child, encoded) ← mint req tokens leaf
    reply ←
        on_error (wrap "forward to %s: %w" (str req.downstream_did ∷ []))
          (cfg.send req.downstream_endpoint req.envelope (forwarded_chain req encoded))
    pure (record {
      principal = verified.principal;
      depth = length (forwarded_chain req encoded);
      child_grant = grant_view child.payload.caveats;
      recorded = recorded;
      reply = reply;
    })
