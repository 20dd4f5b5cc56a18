-- ===== src/Agent.antt =====
-- cmd/svpchain-research-agent/main.go: the binary. `run` reads the configuration and the operator
-- key, builds the app and serves; and the intermediary runs on the app's delegated service, which
-- is its verifier and its recorder of fees. `G` is a signer of credentials.
pub mod Start
pub mod Fees
use svpchain_research_agent.Base.{
  ℕ, ℤ, not, Bool, true, false, String, List, [], ◌∷◌, Option, none, some, Result, ok, err, Error,
  errorf, wrap, Bytes, M, ◌==◌, string_eq, ◌<>◌, if◌then◌else◌,
}
use svpchain_research_agent.Base.Results.{map_err, or_fail}
use svpchain_research_agent.Base.State.{◌>>=◌, ◌>>◌, lift, check, pure}
use svpchain_research_agent.Config.{AgentConfig, Files, load_file}
use svpchain_research_agent.Operator.{PrivKey, load}
use svpchain_research_agent.Delegated.{Deps, Service, ask, clock, agent_id}
use svpchain_research_agent.Delegated.Proof.{verify_inbound}
use svpchain_research_agent.Delegated.Settlement.{execute_record_spend}
use svpchain_research_agent.Wire.{
  App, Outside, DelegatedConfig, delegation_profile, build_profile, close_app,
}
use svpchain_research_agent.Intermediary as Intermediary
use svpchain_research_agent.Intermediary.{Reply}

-- What is served: the fields of intermediary.Config that the binary decides, and the addresses.
pub record Running (G : Type 0) : Type 0 where
  pub agent_id : String
  pub signer : G
  pub delegated : DelegatedConfig
  pub listen_addr : String
  pub public_url : String

pub record Host (G S A : Type 0) : Type 1 where
  pub files : Files
  pub int_from_string : String → Option ℤ
  pub outside : Outside S A
  pub new_private_key_signer : PrivKey → Result G
  -- The id of an operator's address; an address that is none makes it panic.
  pub agent_id_from_operator : String → Result String
  -- intermediary.Serve, until it ends.
  pub serve : Running G → Result (Unit {0})

module _ {G S A : Type 0} (host : Host G S A) where
  -- What `run` does between the building of the app and its deferred closing.
  abbrev serve_app : (Option DelegatedConfig) → String → G → String → String → Result (Unit {0})
  serve_app none id signer listen url =
      err
        (errorf "delegated services are not configured; check the [operator] and chain sections" [])
  serve_app (some c) id signer listen url = host.serve (record {
    agent_id = id;
    signer = signer;
    delegated = c;
    listen_addr = listen;
    public_url = url;
  })

  abbrev closed : Result (Unit {0}) → M ℕ (Unit {0})
  closed r n = (r, close_app n)

  unfoldable pub run : String → String → String → M ℕ (Unit {0})
  run config_path listen_addr public_url = do
    check (not (config_path == "")) (
        errorf
          "-config is required: this agent needs an operator key to sign the credentials it issues"
          [])
    cfg ← lift (load_file host.int_from_string host.files config_path)
    key ← lift (load host.outside.key_source cfg.operator.key_file)
    (priv, operator) ← lift (
        or_fail key (
          errorf
            "no operator key configured: an intermediary must sign the credentials it passes on"
            []))
    signer ←
        lift (map_err (wrap "build credential signer: %w" []) (host.new_private_key_signer priv))
    id ← lift (host.agent_id_from_operator operator)
    app ← build_profile host.outside delegation_profile cfg
    closed (
        serve_app app.delegated id signer listen_addr
          (if public_url == "" then "http://127.0.0.1" <> listen_addr else public_url))

-- The sender and the source of nonces, in the service's world.
pub record Peer (W : Type 0) : Type 0 where
  pub send : String → Bytes → List String → M W Reply
  pub draw_nonce : M W Bytes

-- intermediary.New(Config{Verify: app.Delegated, Spend: app.Delegated, ...})
unfoldable pub intermediary_config :
    {W O X : Type 0} → Deps W O X → Peer W → Intermediary.Config (Service W) O
intermediary_config d peer = record {
  agent_id = agent_id d;
  verify = verify_inbound d;
  send = λ e b ts. ask (peer.send e b ts);
  spend = some (execute_record_spend d);
  now = clock d;
  draw_nonce = ask peer.draw_nonce;
  attenuate = λ p. ask (d.dt.attenuate p);
  allows = d.dt.allows;
  constrained_to = d.dt.constrained_to;
  new_string_set = d.dt.new_string_set;
  new_uint32_set = d.dt.new_uint32_set;
  new_coins = d.dt.new_coins;
}
