-- ===== src/Toolbridge/Chain.antt =====
-- internal/toolbridge/register_chain.go: the operations of x/agent and x/agentwallet.
use svpchain_research_agent.Base.{String, List, [], ◌∷◌, Result, M}
use svpchain_research_agent.Base.Results.{◌>>=◌}
use svpchain_research_agent.Json.{RawMessage}
use svpchain_research_agent.Toolbridge.{Native, Registry, adapt_native}
use svpchain_research_agent.Toolbridge.Families.{skill_agent_registry, skill_delegation, add_all}

-- The methods of agentchain.Service.
pub record ChainMethods (S A : Type 0) : Type 1 where
  pub get_agent : Native S A
  pub get_agent_by_operator : Native S A
  pub list_agents : Native S A
  pub get_agents_by_owner : Native S A
  pub get_agents_by_capability : Native S A
  pub get_agent_params : Native S A
  pub broadcast_signed_tx : Native S A
  pub build_register_agent : Native S A
  pub build_update_agent : Native S A
  pub build_deposit_bond : Native S A
  pub build_withdraw_bond : Native S A
  pub build_deregister_agent : Native S A
  pub get_delegation : Native S A
  pub get_delegations_by_delegator : Native S A
  pub get_delegation_epoch : Native S A
  pub get_delegation_spend : Native S A
  pub get_agentwallet_params : Native S A
  pub build_create_delegation : Native S A
  pub build_update_delegation : Native S A
  pub build_pause_delegation : Native S A
  pub build_resume_delegation : Native S A
  pub build_revoke_delegation : Native S A
  pub build_revoke_token : Native S A

module _ {S A : Type 0} where
  abbrev pub agent_registry_tools : ChainMethods S A → List (String × (RawMessage → M S A))
  agent_registry_tools c =
      ("get_agent", adapt_native c.get_agent)
      ∷ ("get_agent_by_operator", adapt_native c.get_agent_by_operator)
      ∷ ("list_agents", adapt_native c.list_agents)
      ∷ ("get_agents_by_owner", adapt_native c.get_agents_by_owner)
      ∷ ("get_agents_by_capability", adapt_native c.get_agents_by_capability)
      ∷ ("get_agent_params", adapt_native c.get_agent_params)
      ∷ ("broadcast_agent_chain_tx", adapt_native c.broadcast_signed_tx)
      ∷ ("build_register_agent", adapt_native c.build_register_agent)
      ∷ ("build_update_agent", adapt_native c.build_update_agent)
      ∷ ("build_deposit_bond", adapt_native c.build_deposit_bond)
      ∷ ("build_withdraw_bond", adapt_native c.build_withdraw_bond)
      ∷ ("build_deregister_agent", adapt_native c.build_deregister_agent)
      ∷ []

  abbrev pub delegation_tools : ChainMethods S A → List (String × (RawMessage → M S A))
  delegation_tools c =
      ("get_delegation", adapt_native c.get_delegation)
      ∷ ("get_delegations_by_delegator", adapt_native c.get_delegations_by_delegator)
      ∷ ("get_delegation_epoch", adapt_native c.get_delegation_epoch)
      ∷ ("get_delegation_spend", adapt_native c.get_delegation_spend)
      ∷ ("get_agentwallet_params", adapt_native c.get_agentwallet_params)
      ∷ ("build_create_delegation", adapt_native c.build_create_delegation)
      ∷ ("build_update_delegation", adapt_native c.build_update_delegation)
      ∷ ("build_pause_delegation", adapt_native c.build_pause_delegation)
      ∷ ("build_resume_delegation", adapt_native c.build_resume_delegation)
      ∷ ("build_revoke_delegation", adapt_native c.build_revoke_delegation)
      ∷ ("build_revoke_token", adapt_native c.build_revoke_token)
      ∷ []

  unfoldable pub register_agent_chain : ChainMethods S A → Registry S A → Result (Registry S A)
  unfolding add_all adapt_native
  register_agent_chain c r =
      add_all skill_agent_registry (agent_registry_tools c) r
      >>= add_all skill_delegation (delegation_tools c)
