-- ===== src/Agentchain/Queries/Asked.antt =====
-- internal/agentchain/query.go: all queries at once.
use svpchain_research_agent.Base.{
  ◌≡◌, ◌∙◌, refl, String, ◌⊎◌, inl, inr, ℕ, Option, Result, ok, err, Error, Bytes, M, arith,
}
use svpchain_research_agent.Base.Results.{Result-cases}
use svpchain_research_agent.Base.State.{◌>>=◌, lift}
use svpchain_research_agent.Delegated.{TenantContext}
use svpchain_research_agent.Agentchain.{AgentDeps, authorize}
use svpchain_research_agent.Agentchain.Coin.{root_id_from_hex}
use svpchain_research_agent.Agentchain.Builds.Owned.{IsTenant, authorize-IsTenant}
use svpchain_research_agent.Agentchain.Queries.{
  ChainQuery, query_agent, query_agent_by_operator, query_all_agents, query_agents_by_owner,
  query_agents_by_capability, query_params, query_wallet_params, query_delegation, query_epoch,
  query_spend, query_delegations_by_delegator, page_request, GetAgentInput, GetAgentByOperatorInput,
  ListAgentsInput, GetAgentsByOwnerInput, GetAgentsByCapabilityInput, RootIdInput,
  GetDelegationsByDelegatorInput, get_agent, get_agent_by_operator, list_agents,
  get_agents_by_owner, get_agents_by_capability, get_agent_params, get_delegation,
  get_delegations_by_delegator, get_delegation_epoch, get_delegation_spend, get_agentwallet_params,
}

-- A call of one of the query operations.
pub data Call : Type 0 where
  agent : GetAgentInput → Call
  agent_by_operator : GetAgentByOperatorInput → Call
  agents : ListAgentsInput → Call
  agents_by_owner : GetAgentsByOwnerInput → Call
  agents_by_capability : GetAgentsByCapabilityInput → Call
  agent_params agentwallet_params : Call
  delegation delegation_epoch delegation_spend : RootIdInput → Call
  delegations_by_delegator : GetDelegationsByDelegatorInput → Call

-- What the chain is to be asked: a root id has to be one.
abbrev rooted : (Bytes → ChainQuery) → Result Bytes → Result ChainQuery
rooted f (ok root) = ok (f root)
rooted f (err e) = err e

abbrev pub request_of : ℕ → Call → Result ChainQuery
request_of len (agent req) = ok (query_agent req.agent_id)
request_of len (agent_by_operator req) = ok (query_agent_by_operator req.operator)
request_of len (agents req) = ok (query_all_agents (page_request req.limit))
request_of len (agents_by_owner req) = ok (query_agents_by_owner req.owner (page_request req.limit))
request_of len (agents_by_capability req) =
    ok (query_agents_by_capability req.capability req.active_only (page_request req.limit))
request_of len agent_params = ok query_params
request_of len agentwallet_params = ok query_wallet_params
request_of len (delegation req) = rooted query_delegation (root_id_from_hex len req.root_id)
request_of len (delegation_epoch req) = rooted query_epoch (root_id_from_hex len req.root_id)
request_of len (delegation_spend req) = rooted query_spend (root_id_from_hex len req.root_id)
request_of len (delegations_by_delegator req) =
    ok (query_delegations_by_delegator req.delegator (page_request req.limit))

module _ {W P R : Type 0} (d : AgentDeps W P) (ask : ChainQuery → M W R)
    (tenant : Option TenantContext) where
  abbrev pub run : Call → M W R
  run (agent req) = get_agent d ask tenant req
  run (agent_by_operator req) = get_agent_by_operator d ask tenant req
  run (agents req) = list_agents d ask tenant req
  run (agents_by_owner req) = get_agents_by_owner d ask tenant req
  run (agents_by_capability req) = get_agents_by_capability d ask tenant req
  run agent_params = get_agent_params d ask tenant
  run agentwallet_params = get_agentwallet_params d ask tenant
  run (delegation req) = get_delegation d ask tenant req
  run (delegation_epoch req) = get_delegation_epoch d ask tenant req
  run (delegation_spend req) = get_delegation_spend d ask tenant req
  run (delegations_by_delegator req) = get_delegations_by_delegator d ask tenant req

  rooted-ask :
      (f : Bytes → ChainQuery) (r : Result Bytes) (w : W)
      → (lift r >>= λ root. ask (f root)) w ≡ (lift (rooted f r) >>= ask) w
  rooted-ask f (ok root) w = refl
  rooted-ask f (err e) w = refl

  -- Every operation asks what its input says, once the caller is let in.
  run-through :
      (q : Call) (w : W) (owner : String)
      → (authorize d tenant w).0 ≡ ok owner
      → run q w ≡ (lift (request_of d.root_id_len q) >>= ask) (authorize d tenant w).1
  unfolding get_agent get_agent_by_operator list_agents get_agents_by_owner get_agents_by_capability
      get_agent_params get_agentwallet_params get_delegation get_delegation_epoch
      get_delegation_spend get_delegations_by_delegator
  run-through (agent req) w owner h = ground arith
  run-through (agent_by_operator req) w owner h = ground arith
  run-through (agents req) w owner h = ground arith
  run-through (agents_by_owner req) w owner h = ground arith
  run-through (agents_by_capability req) w owner h = ground arith
  run-through agent_params w owner h = ground arith
  run-through agentwallet_params w owner h = ground arith
  run-through (delegation req) w owner h = ground arith
  run-through (delegation_epoch req) w owner h = ground arith
  run-through (delegation_spend req) w owner h = ground arith
  run-through (delegations_by_delegator req) w owner h = ground arith

  abbrev IsStopped : Call → W → Error → Type 0
  IsStopped q w e = run q w ≡ (err e, (authorize d tenant w).1)

  refused : (q : Call) (w : W) (e : Error) → (authorize d tenant w).0 ≡ err e → IsStopped q w e
  unfolding get_agent get_agent_by_operator list_agents get_agents_by_owner get_agents_by_capability
      get_agent_params get_agentwallet_params get_delegation get_delegation_epoch
      get_delegation_spend get_delegations_by_delegator
  refused (agent req) w e h = ground arith
  refused (agent_by_operator req) w e h = ground arith
  refused (agents req) w e h = ground arith
  refused (agents_by_owner req) w e h = ground arith
  refused (agents_by_capability req) w e h = ground arith
  refused agent_params w e h = ground arith
  refused agentwallet_params w e h = ground arith
  refused (delegation req) w e h = ground arith
  refused (delegation_epoch req) w e h = ground arith
  refused (delegation_spend req) w e h = ground arith
  refused (delegations_by_delegator req) w e h = ground arith

  -- The caller is let in, and then either its input names no root id and nothing is asked, or the
  -- answer is what the chain gives to the one request.
  pub record IsAsked (q : Call) (w : W) : Type 0 where
    pub owner : String
    pub tenant_is : IsTenant d w tenant owner
    pub answer :
        ((e : Error) × (request_of d.root_id_len q ≡ err e) × IsStopped q w e)
        ⊎ ((request : ChainQuery) × (request_of d.root_id_len q ≡ ok request)
            × (run q w ≡ ask request (authorize d tenant w).1))

  -- A query of a caller that is no tenant, or that the policy engine refuses, ends in that error
  -- with the chain unasked. Any other answers what the chain gives to the one request that its
  -- input stands for, or refuses a malformed root id with the chain unasked.
  pub run-IsAsked :
      (q : Call) (w : W)
      → ((e : Error) × ((authorize d tenant w).0 ≡ err e) × IsStopped q w e) ⊎ IsAsked q w
  run-IsAsked q w = elim (Result-cases (authorize d tenant w).0) [
    | inr (e, h) ↦ inl (e, h, refused q w e h)
    | inl (owner, h) ↦
        let through = run-through q w owner h in
        inr (record {
          owner = owner;
          tenant_is = authorize-IsTenant d tenant w owner h;
          answer = elim (Result-cases (request_of d.root_id_len q)) [
            | inr (e, r) ↦ inl (e, r, through ∙ rw r refl)
            | inl (request, r) ↦ inr (request, r, through ∙ rw r refl)
          ];
        })
  ]
