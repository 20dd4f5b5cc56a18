-- ===== src/Tests/Start.antt =====
-- The start of the binary, its tenants and its fees, at concrete inputs.
use svpchain_research_agent.Base.{
  ℕ, pos, ◌≡◌, ◌⊎◌, refl, false, String, [], ◌∷◌, some, Result, ok, err, Error, external, arith,
  if◌then◌else◌, cut_prefix, ◌==◌, string_eq, lookup, Bool-cases, eq_iff, inl, inr,
}
use svpchain_research_agent.Base.Decimal.{set_string}
use svpchain_research_agent.Tests.Config.{files, path}
use svpchain_research_agent.Config.{load_file, validate, apply_defaults, validate_fee, fee_defaults}
use svpchain_research_agent.Operator.{load}
use svpchain_research_agent.Base.{trim_space}
use svpchain_research_agent.Delegated.ReadTenants.{tenant_id, sweep, admit}
use svpchain_research_agent.Wire.{
  EnginePolicy, build_profile, dynamic_tenant_adapter, multi_dynamic_source,
}
use svpchain_research_agent.Wire.Tenants.{read_source, AreAuto, admitted-IsResolved}
use svpchain_research_agent.Intermediary.{forward}
use svpchain_research_agent.Agent.{Running, Host, Peer, intermediary_config, run}
use svpchain_research_agent.Agent.Start.{IsStarted, run-IsStarted}
use svpchain_research_agent.Agent.Fees.{LandsFee, forward-LandsFee}
use svpchain_research_agent.Tests.{deps, grant, started, operator, me}
use svpchain_research_agent.Intermediary.Forward.{IsTraced, forward-IsOutcome}
use svpchain_research_agent.Tests.Intermediary.{request}
use svpchain_research_agent.Tests.Toolbridge.{handlers, methods, execution}

abbrev peer : Peer ℕ
peer = record {
  send = λ e b ts w. (ok (record { task_id = "t"; state = "completed"; response = "" }), w);
  draw_nonce = λ w. (ok (1 ∷ []), w);
}

forward-LandsFee_example :
    LandsFee deps peer request request.fee started
      (forward (intermediary_config deps peer) request started).1
forward-LandsFee_example = forward-LandsFee deps peer started request

-- The agent of the binary, on the service with its operator key.
forward-IsOutcome_example : IsTraced (intermediary_config deps peer) started [] request
forward-IsOutcome_example = forward-IsOutcome (intermediary_config deps peer) started [] request

abbrev host : Host String ℕ String
host = record {
  files = files;
  int_from_string = set_string;
  outside = record {
    dial = λ a. ok tt;
    new_comet_client = λ a. ok tt;
    load_transfer_out_store = λ p. ok tt;
    key_source = record {
      env_var = "ab";
      read_file = λ p. ok "";
      parse_priv_key = λ s. ok deps.priv;
      derive_address = λ k. operator;
    };
    handlers = handlers;
    chain_methods = methods;
    execution_methods = λ c. execution;
  };
  new_private_key_signer = λ k. ok "signer";
  agent_id_from_operator = λ o. ok me;
  serve = λ r. ok tt;
}

run-IsStarted_example :
    ((e : Error) × ((r : Running String) → IsStarted host path ":8081" "" r → ⊥)
      × (run host path ":8081" "" 0 ≡ (err e, 0)))
    ⊎ ((r : Running String) × IsStarted host path ":8081" "" r
        × (run host path ":8081" "" 0 ≡ (ok tt, 0)))
run-IsStarted_example = run-IsStarted host path ":8081" "" 0

-- It serves.
started_now : run host path ":8081" "" 0 ≡ (ok tt, 0)
unfolding run load_file validate apply_defaults validate_fee fee_defaults set_string load trim_space
    build_profile
started_now = refl

-- A store with the one tenant "auto-1".
abbrev store : String → Result EnginePolicy
store id =
    if id == "auto-1"
    then ok (record {
      tenant_id = id;
      owner = "svp1bob";
      allowed_subaccounts = [];
      kill_switch = false;
    })
    else err (external "no tenant")

store-AreAuto : AreAuto store
unfolding cut_prefix
store-AreAuto id tp h = elim (Bool-cases (id == "auto-1")) [
  | inl same ↦ rw ((eq_iff id "auto-1").0 same) (λ q. cc)
  | inr other ↦ absurd (ground arith)
]

admitted-IsResolved_example :
    multi_dynamic_source
      (dynamic_tenant_adapter store ∷ read_source (pos 200) (admit (pos 100) grant []).1 ∷ [])
      (tenant_id grant)
    ≡ some (record {
      tenant_id = tenant_id grant;
      owner = "svp1alice";
      allowed_subaccounts = 0 ∷ 1 ∷ [];
      kill_switch = false;
    })
unfolding tenant_id sweep lookup
admitted-IsResolved_example =
    admitted-IsResolved store (pos 100) (pos 200) [] grant store-AreAuto
      (record { distinct = tt; bounded = omega arith }) (omega arith) refl
