-- ===== src/Agentchain/Builds/Requests.antt =====
-- All build operations at once.
use svpchain_research_agent.Base.{◌≡◌, refl, Option, ok, M}
use svpchain_research_agent.Delegated.{TenantContext}
use svpchain_research_agent.Agentchain.{
  msg_pause_delegation, msg_resume_delegation, msg_revoke_delegation, AgentDeps,
}
use svpchain_research_agent.Agentchain.Inputs.{
  BuildRegisterAgentInput, BuildUpdateAgentInput, BuildBondInput, BuildDeregisterAgentInput,
  BuildCreateDelegationInput, BuildUpdateDelegationInput, BuildDelegationRefInput,
  BuildRevokeTokenInput,
}
use svpchain_research_agent.Agentchain.Builds.{
  build_register_agent, build_update_agent, build_deposit_bond, build_withdraw_bond,
  build_deregister_agent, build_create_delegation, build_update_delegation, build_pause_delegation,
  build_resume_delegation, build_revoke_delegation, build_revoke_token,
}
use svpchain_research_agent.Agentchain.Builds.Owned.{IsOwned}
use svpchain_research_agent.Agentchain.Builds.Operations

-- A call of one of the build operations.
pub data Request : Type 0 where
  register : BuildRegisterAgentInput → Request
  update : BuildUpdateAgentInput → Request
  deposit withdraw : BuildBondInput → Request
  deregister : BuildDeregisterAgentInput → Request
  create_delegation : BuildCreateDelegationInput → Request
  update_delegation : BuildUpdateDelegationInput → Request
  pause resume revoke : BuildDelegationRefInput → Request
  revoke_token : BuildRevokeTokenInput → Request

module _ {W P : Type 0} (d : AgentDeps W P) (tenant : Option TenantContext) where
  abbrev pub build : Request → M W P
  build (register req) = build_register_agent d tenant req
  build (update req) = build_update_agent d tenant req
  build (deposit req) = build_deposit_bond d tenant req
  build (withdraw req) = build_withdraw_bond d tenant req
  build (deregister req) = build_deregister_agent d tenant req
  build (create_delegation req) = build_create_delegation d tenant req
  build (update_delegation req) = build_update_delegation d tenant req
  build (pause req) = build_pause_delegation d tenant req
  build (resume req) = build_resume_delegation d tenant req
  build (revoke req) = build_revoke_delegation d tenant req
  build (revoke_token req) = build_revoke_token d tenant req

  -- Every build operation that succeeds has asked the policy engine about the caller's tenant, and
  -- answers the assembler's payload for one valid message in the name of that tenant's owner, with
  -- the owner as the signer and the number and sequence of the owner's account.
  pub build-IsOwned :
      (w : W) (req : Request) (payload : P)
      → (build req w).0 ≡ ok payload
      → IsOwned d w tenant payload
  unfolding build_pause_delegation build_resume_delegation build_revoke_delegation
  build-IsOwned w (register req) payload h = Operations.register-IsOwned d tenant w payload req h
  build-IsOwned w (update req) payload h = Operations.update-IsOwned d tenant w payload req h
  build-IsOwned w (deposit req) payload h = Operations.deposit-IsOwned d tenant w payload req h
  build-IsOwned w (withdraw req) payload h = Operations.withdraw-IsOwned d tenant w payload req h
  build-IsOwned w (deregister req) payload h =
      Operations.deregister-IsOwned d tenant w payload req h
  build-IsOwned w (create_delegation req) payload h =
      Operations.create-IsOwned d tenant w payload req h
  build-IsOwned w (update_delegation req) payload h =
      Operations.change-IsOwned d tenant w payload req h
  build-IsOwned w (pause req) payload h =
      Operations.lifecycle-IsOwned d tenant w payload "build_pause_delegation" req
        msg_pause_delegation (λ o r. refl) h
  build-IsOwned w (resume req) payload h =
      Operations.lifecycle-IsOwned d tenant w payload "build_resume_delegation" req
        msg_resume_delegation (λ o r. refl) h
  build-IsOwned w (revoke req) payload h =
      Operations.lifecycle-IsOwned d tenant w payload "build_revoke_delegation" req
        msg_revoke_delegation (λ o r. refl) h
  build-IsOwned w (revoke_token req) payload h =
      Operations.revoke_token-IsOwned d tenant w payload req h
