-- ===== src/Tests/Config.antt =====
-- Loading a configuration, at a concrete file.
use svpchain_research_agent.Base.{pos, ◌≡◌, refl, false, String, [], ok, ◌<>◌}
use svpchain_research_agent.Base.Decimal.{set_string}
use svpchain_research_agent.Config.{
  AgentConfig, Files, with_paths, apply_defaults, fee_defaults, validate, validate_fee, load_file,
}
use svpchain_research_agent.Config.Laws.{IsUsable, apply_defaults_again, load_file-IsUsable}

abbrev raw : AgentConfig
raw = record {
  dex_chain = record {
    id = "svp-1";
    grpc_addr = "localhost:9090";
    comet_rpc_url = "http://localhost:26657";
    indexer_base_url = "http://localhost:3002";
  };
  agent_chain = record { id = ""; rest_url = "" };
  listen_addr = ":8080";
  public_url = "";
  faucet_base_url = "";
  transfer_out_cap_path = "";
  broadcast_mode = "";
  markets_refresh = pos 0;
  limits = record {
    deposit_max_usdc = 0;
    withdraw_max_usdc = 0;
    transfer_max_usdc = 0;
    daily_withdraw_cap_usdc = 0;
  };
  fee = record { denom = ""; amount = ""; gas_limit = 0 };
  operator = record { key_file = "operator.key"; capabilities = []; metadata = "" };
}

abbrev pub files : Files
files = record {
  decode_file = λ path. ok raw;
  is_abs = λ p. false;
  join = λ a b. a <> "/" <> b;
  dir = λ p. "/etc/agent";
}

apply_defaults_again_example : apply_defaults (apply_defaults raw) ≡ apply_defaults raw
apply_defaults_again_example = apply_defaults_again raw

abbrev pub path : String
path = "/etc/agent/agent.toml"

loaded_now : load_file set_string files path ≡ ok (with_paths files path (apply_defaults raw))
unfolding load_file validate validate_fee apply_defaults fee_defaults set_string
loaded_now = refl

load_file-IsUsable_example :
    IsUsable set_string (with_paths files path (apply_defaults raw))
    × (file : AgentConfig) × (files.decode_file path ≡ ok file)
    × (with_paths files path (apply_defaults raw) ≡ with_paths files path (apply_defaults file))
load_file-IsUsable_example =
    load_file-IsUsable set_string files path (with_paths files path (apply_defaults raw)) loaded_now
