-- ===== src/Agentchain/Queries.antt =====
-- internal/agentchain/query.go: the read operations over x/agent and x/agentwallet. The two query
-- clients are the fields of `Querier`; their responses `R` are passed on unread.
pub mod Asked
use svpchain_research_agent.Base.{
  ℕ, Bool, String, Option, none, some, Bytes, M, ◌==◌, nat_eq, if◌then◌else◌,
}
use svpchain_research_agent.Base.State.{◌>>=◌, lift}
use svpchain_research_agent.Delegated.{TenantContext}
use svpchain_research_agent.Agentchain.{AgentDeps, authorize}
use svpchain_research_agent.Agentchain.Coin.{root_id_from_hex}

-- query.PageRequest, of which only the limit is set.
pub record PageRequest : Type 0 where
  pub limit : ℕ

unfoldable pub page_request : ℕ → Option PageRequest
page_request limit = if limit == 0 then none else some (record { limit = limit })

-- The requests of the two query clients.
pub data ChainQuery : Type 0 where
  query_agent query_agent_by_operator : String → ChainQuery
  query_all_agents : Option PageRequest → ChainQuery
  query_agents_by_owner : String → Option PageRequest → ChainQuery
  query_agents_by_capability :
      (capability : String) (active_only : Bool) (pagination : Option PageRequest) → ChainQuery
  query_params query_wallet_params : ChainQuery
  query_delegation query_epoch query_spend : (root_id : Bytes) → ChainQuery
  query_delegations_by_delegator : String → Option PageRequest → ChainQuery

pub record GetAgentInput : Type 0 where
  pub agent_id : String

pub record GetAgentByOperatorInput : Type 0 where
  pub operator : String

pub record ListAgentsInput : Type 0 where
  pub limit : ℕ

pub record GetAgentsByOwnerInput : Type 0 where
  pub owner : String
  pub limit : ℕ

pub record GetAgentsByCapabilityInput : Type 0 where
  pub capability : String
  pub active_only : Bool
  pub limit : ℕ

pub record RootIdInput : Type 0 where
  pub root_id : String

pub record GetDelegationsByDelegatorInput : Type 0 where
  pub delegator : String
  pub limit : ℕ

module _ {W P R : Type 0} (d : AgentDeps W P) (ask : ChainQuery → M W R)
    (tenant : Option TenantContext) where
  unfoldable pub get_agent : GetAgentInput → M W R
  get_agent req = authorize d tenant >>= λ owner. ask (query_agent req.agent_id)

  unfoldable pub get_agent_by_operator : GetAgentByOperatorInput → M W R
  get_agent_by_operator req =
      authorize d tenant >>= λ owner. ask (query_agent_by_operator req.operator)

  unfoldable pub list_agents : ListAgentsInput → M W R
  unfolding page_request
  list_agents req = authorize d tenant >>= λ owner. ask (query_all_agents (page_request req.limit))

  unfoldable pub get_agents_by_owner : GetAgentsByOwnerInput → M W R
  unfolding page_request
  get_agents_by_owner req =
      authorize d tenant >>= λ owner. ask (query_agents_by_owner req.owner (page_request req.limit))

  unfoldable pub get_agents_by_capability : GetAgentsByCapabilityInput → M W R
  unfolding page_request
  get_agents_by_capability req = authorize d tenant >>= λ owner.
      ask (query_agents_by_capability req.capability req.active_only (page_request req.limit))

  unfoldable pub get_agent_params : M W R
  get_agent_params = authorize d tenant >>= λ owner. ask query_params

  -- `rootIDFromHex`, under the length that the chain gives a root id.
  abbrev pub root_id_of : RootIdInput → M W Bytes
  root_id_of req = lift (root_id_from_hex d.root_id_len req.root_id)

  unfoldable pub get_delegation : RootIdInput → M W R
  get_delegation req =
      authorize d tenant >>= λ owner. root_id_of req >>= λ root. ask (query_delegation root)

  unfoldable pub get_delegations_by_delegator : GetDelegationsByDelegatorInput → M W R
  unfolding page_request
  get_delegations_by_delegator req = authorize d tenant >>= λ owner.
      ask (query_delegations_by_delegator req.delegator (page_request req.limit))

  unfoldable pub get_delegation_epoch : RootIdInput → M W R
  get_delegation_epoch req =
      authorize d tenant >>= λ owner. root_id_of req >>= λ root. ask (query_epoch root)

  unfoldable pub get_delegation_spend : RootIdInput → M W R
  get_delegation_spend req =
      authorize d tenant >>= λ owner. root_id_of req >>= λ root. ask (query_spend root)

  unfoldable pub get_agentwallet_params : M W R
  get_agentwallet_params = authorize d tenant >>= λ owner. ask query_wallet_params
