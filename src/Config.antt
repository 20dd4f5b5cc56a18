-- ===== src/Config.antt =====
-- internal/config/config.go: the agent's configuration, its defaults and its checks. The TOML
-- decoder, the file paths of Go's path/filepath and the big integers are parameters.
pub mod Laws
use svpchain_research_agent.Base.{
  ℕ, ℤ, Bool, not, String, List, [], ◌∷◌, Option, Result, ok, errorf, wrap, str, ◌<>◌, ◌==◌,
  string_eq, nat_eq, is_negative, ◌&&◌, if◌then◌else◌,
}
use svpchain_research_agent.Base.Results.{◌>>=◌, ◌>>◌, guard, or_fail, map_err}

pub record DexChainConfig : Type 0 where
  pub id : String
  pub grpc_addr : String
  pub comet_rpc_url : String
  pub indexer_base_url : String

pub record AgentChainConfig : Type 0 where
  pub id : String
  pub rest_url : String

pub record OperatorConfig : Type 0 where
  pub key_file : String
  pub capabilities : List String
  pub metadata : String

pub record FeeConfig : Type 0 where
  pub denom : String
  pub amount : String
  pub gas_limit : ℕ

pub record LimitsConfig : Type 0 where
  pub deposit_max_usdc : ℕ
  pub withdraw_max_usdc : ℕ
  pub transfer_max_usdc : ℕ
  pub daily_withdraw_cap_usdc : ℕ

-- config.Config. `markets_refresh` is the one field of the cache section, in nanoseconds.
pub record AgentConfig : Type 0 where
  pub dex_chain : DexChainConfig
  pub agent_chain : AgentChainConfig
  pub listen_addr : String
  pub public_url : String
  pub faucet_base_url : String
  pub transfer_out_cap_path : String
  pub broadcast_mode : String
  pub markets_refresh : ℤ
  pub limits : LimitsConfig
  pub fee : FeeConfig
  pub operator : OperatorConfig

-- A separate agent chain is configured.
unfoldable pub is_enabled : AgentChainConfig → Bool
is_enabled a = not (a.rest_url == "")

abbrev pub or_default : String → String → String
or_default set default = if set == "" then default else set

unfoldable pub fee_defaults : FeeConfig → FeeConfig
fee_defaults f = record {
  denom = or_default f.denom "asvp";
  amount = or_default f.amount "25000000000000000";
  gas_limit = if f.gas_limit == 0 then 1000000 else f.gas_limit;
}

unfoldable pub apply_defaults : AgentConfig → AgentConfig
apply_defaults c = record c {
  broadcast_mode = or_default c.broadcast_mode "server";
  public_url =
      if c.public_url == "" && not (c.listen_addr == "")
      then "http://localhost" <> c.listen_addr
      else c.public_url;
  fee = fee_defaults c.fee;
}

-- Go's `(a == "") != (b == "")`.
abbrev pub differ : Bool → Bool → Bool
differ a b = if a then not b else b

-- toml.DecodeFile, filepath.IsAbs, filepath.Join and filepath.Dir.
pub record Files : Type 0 where
  pub decode_file : String → Result AgentConfig
  pub is_abs : String → Bool
  pub join : String → String → String
  pub dir : String → String

-- A relative path starts at the directory of the configuration file.
abbrev pub resolved : Files → String → String → String
resolved fs path p = if not (p == "") && not (fs.is_abs p) then fs.join (fs.dir path) p else p

abbrev pub with_paths : Files → String → AgentConfig → AgentConfig
with_paths fs path c = record c {
  transfer_out_cap_path = resolved fs path c.transfer_out_cap_path;
  operator = record c.operator { key_file = resolved fs path c.operator.key_file };
}

module _ (int_from_string : String → Option ℤ) where
  unfoldable pub validate_fee : FeeConfig → Result (Unit {0})
  validate_fee f = do
    guard (not (f.denom == "")) (errorf "fee.denom is required" [])
    amt ←
        or_fail (int_from_string f.amount)
          (errorf "fee.amount %q is not a valid integer" (str f.amount ∷ []))
    guard (not (is_negative amt)) (errorf "fee.amount %q must be non-negative" (str f.amount ∷ []))

  unfoldable pub validate : AgentConfig → Result (Unit {0})
  validate c = do
    guard (not (c.dex_chain.id == "")) (errorf "dex_chain.id is required" [])
    guard (not (c.dex_chain.grpc_addr == "")) (errorf "dex_chain.grpc_addr is required" [])
    guard (not (c.dex_chain.comet_rpc_url == "")) (errorf "dex_chain.comet_rpc_url is required" [])
    guard (not (c.dex_chain.indexer_base_url == ""))
        (errorf "dex_chain.indexer_base_url is required" [])
    guard (not (c.listen_addr == "")) (errorf "listen_addr is required" [])
    guard (not (differ (c.agent_chain.id == "") (c.agent_chain.rest_url == "")))
        (errorf "agent_chain.id and agent_chain.rest_url must be set together" [])
    validate_fee c.fee

  unfoldable pub load_file : Files → String → Result AgentConfig
  load_file fs path = do
    c ← map_err (wrap "decode TOML %s: %w" (str path ∷ [])) (fs.decode_file path)
    validate (with_paths fs path (apply_defaults c))
    ok (with_paths fs path (apply_defaults c))
