-- ===== src/Wire.antt =====
-- internal/wire: what the configuration is built into. The dialling of the chain, the clients of
-- the MCP library and its stores are the fields of `Outside`; the state is the number of gRPC
-- connections that stand open.
pub mod Tenants
pub mod Closing
use svpchain_research_agent.Base.{
  ℕ, suc, ◌-◌, Bool, true, false, String, List, [], ◌∷◌, Option, none, some, Result, ok, err, Error,
  wrap, M, if◌then◌else◌,
}
use svpchain_research_agent.Base.Results.{map_err}
use svpchain_research_agent.Base.State.{◌>>=◌, ◌>>◌, lift, pure}
use svpchain_research_agent.Config.{AgentConfig, is_enabled}
use svpchain_research_agent.Operator.{FeeSpec, PrivKey, KeySource, load}
use svpchain_research_agent.Toolbridge.{Registry}
use svpchain_research_agent.Toolbridge.Handlers.{Handlers}
use svpchain_research_agent.Toolbridge.Chain.{ChainMethods}
use svpchain_research_agent.Toolbridge.Families.{new_empty}
use svpchain_research_agent.Toolbridge.Execution.{ExecutionMethods}

-- What the queries, the accounts and the broadcasts of the agent chain go over.
pub data Clients : Type 0 where
  over_grpc : Clients
  over_rest : (rest_url : String) → Clients

-- delegated.Config, as far as the configuration decides it.
pub record DelegatedConfig : Type 0 where
  pub priv : PrivKey
  pub operator : String
  pub chain_id : String
  pub fee : FeeSpec
  pub clients : Clients
  pub endpoint : String
  pub capabilities : List String
  pub metadata : String

pub record App (S A : Type 0) : Type 0 where
  pub registry : Registry S A
  pub delegated : Option DelegatedConfig

pub record Profile (S A : Type 0) : Type 1 where
  pub name : String
  pub register :
      Handlers S A
      → ChainMethods S A
      → Option (ExecutionMethods S A)
      → Registry S A
      → Result (Registry S A)

abbrev pub delegation_profile : {S A : Type 0} → Profile S A
delegation_profile = record { name = "research"; register = λ h c e r. ok r }

pub record Outside (S A : Type 0) : Type 1 where
  pub dial : String → Result (Unit {0})
  pub new_comet_client : String → Result (Unit {0})
  pub load_transfer_out_store : String → Result (Unit {0})
  pub key_source : KeySource
  pub handlers : Handlers S A
  pub chain_methods : ChainMethods S A
  pub execution_methods : DelegatedConfig → ExecutionMethods S A

unfoldable pub agent_chain_id : AgentConfig → String
agent_chain_id cfg = if is_enabled cfg.agent_chain then cfg.agent_chain.id else cfg.dex_chain.id

unfoldable pub agent_clients : AgentConfig → Clients
agent_clients cfg =
    if is_enabled cfg.agent_chain then over_rest cfg.agent_chain.rest_url else over_grpc

unfoldable pub delegated_config : AgentConfig → Option (PrivKey × String) → Option DelegatedConfig
unfolding agent_chain_id agent_clients
delegated_config cfg none = none
delegated_config cfg (some (priv, operator)) = some (record {
  priv = priv;
  operator = operator;
  chain_id = agent_chain_id cfg;
  fee = record { denom = cfg.fee.denom; amount = cfg.fee.amount; gas_limit = cfg.fee.gas_limit };
  clients = agent_clients cfg;
  endpoint = cfg.public_url;
  capabilities = cfg.operator.capabilities;
  metadata = cfg.operator.metadata;
})

-- A connection that was dialled is open.
abbrev pub opened : Result (Unit {0}) → M ℕ (Unit {0})
opened (ok u) n = (ok u, suc n)
opened (err e) n = (err e, n)

-- `if err != nil { grpcConn.Close(); return nil, err }`
abbrev pub or_close : {A : Type 0} → Result A → M ℕ A
or_close (ok a) n = (ok a, n)
or_close (err e) n = (err e, n - 1)

abbrev pub close_app : ℕ → ℕ
close_app n = n - 1

abbrev methods_of :
    {S A : Type 0} → Outside S A → Option DelegatedConfig → Option (ExecutionMethods S A)
methods_of out none = none
methods_of out (some c) = some (out.execution_methods c)

module _ {S A : Type 0} (out : Outside S A) (p : Profile S A) where
  unfoldable pub build_profile : AgentConfig → M ℕ (App S A)
  unfolding delegated_config
  build_profile cfg = do
    opened (map_err (wrap "dial chain gRPC: %w" []) (out.dial cfg.dex_chain.grpc_addr))
    or_close
        (map_err (wrap "cometbft client: %w" []) (out.new_comet_client cfg.dex_chain.comet_rpc_url))
    or_close (
        map_err (wrap "load transfer-out cap state: %w" [])
          (out.load_transfer_out_store cfg.transfer_out_cap_path))
    key ← or_close (load out.key_source cfg.operator.key_file)
    registry ← lift (
        p.register out.handlers out.chain_methods (methods_of out (delegated_config cfg key))
          new_empty)
    pure (record { registry = registry; delegated = delegated_config cfg key })

-- policy.TenantPolicy, as the engine reads it.
pub record EnginePolicy : Type 0 where
  pub tenant_id : String
  pub owner : String
  pub allowed_subaccounts : List ℕ
  pub kill_switch : Bool

abbrev pub DynamicSource : Type 0
DynamicSource = String → Option EnginePolicy

-- auth.TenantRecord has the fields of the policy; `lookup_by_tenant_id` is the store's.
unfoldable pub dynamic_tenant_adapter : (String → Result EnginePolicy) → DynamicSource
dynamic_tenant_adapter lookup_by_tenant_id id = elim (lookup_by_tenant_id id) [
  | err e ↦ none
  | ok found ↦ some (record {
    tenant_id = found.tenant_id;
    owner = found.owner;
    allowed_subaccounts = found.allowed_subaccounts;
    kill_switch = found.kill_switch;
  })
]

-- The first source that answers.
unfoldable pub multi_dynamic_source : List DynamicSource → DynamicSource
multi_dynamic_source [] id = none
multi_dynamic_source (src ∷ rest) id = elim (src id) [
  | some tp ↦ some tp
  | none ↦ multi_dynamic_source rest id
]
