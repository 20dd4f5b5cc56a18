-- ===== src/Agentchain/Builds.antt =====
-- internal/agentchain/txbuild.go: the build operations. Each checks the tenant first, and names its
-- owner as the sender and the signer.
pub mod Owned
pub mod Operations
pub mod Requests
use svpchain_research_agent.Base.{
  ℕ, ℤ, String, List, [], ◌∷◌, Option, none, some, Result, ok, errorf, wrap, external, Bytes, M,
  ◌==◌, string_eq, if◌then◌else◌,
}
use svpchain_research_agent.Base.Base64.{decode}
use svpchain_research_agent.Base.Hex.{decode_string}
use svpchain_research_agent.Base.Results
use svpchain_research_agent.Base.Results.{map_err, or_fail}
use svpchain_research_agent.Base.State.{◌>>=◌, ◌>>◌, lift}
use svpchain_research_agent.Delegated.{TenantContext}
use svpchain_research_agent.Agentchain.{
  PricingTerms, LimitTerms, Registration, Update, AgentMsg, msg_register_agent, msg_update_agent,
  msg_deposit_bond, msg_withdraw_bond, msg_deregister_agent, msg_create_delegation,
  msg_update_delegation, msg_pause_delegation, msg_resume_delegation, msg_revoke_delegation,
  msg_revoke_token, Summary, AgentDeps, authorize, assemble,
}
use svpchain_research_agent.Agentchain.Coin.{to_sdk, root_id_from_hex}
use svpchain_research_agent.Agentchain.Inputs.{
  BuildRegisterAgentInput, BuildUpdateAgentInput, BuildBondInput, BuildDeregisterAgentInput,
  BuildCreateDelegationInput, BuildUpdateDelegationInput, BuildDelegationRefInput,
  BuildRevokeTokenInput, no_summary, amount_summary, optional_hash, pricing_terms, limit_terms,
}

module _ {W P : Type 0} (d : AgentDeps W P) (tenant : Option TenantContext) where
  unfoldable pub build_register_agent : BuildRegisterAgentInput → M W P
  build_register_agent req = do
    owner ← authorize d tenant
    operator ← lift (map_err (wrap "operator: %w" []) (d.acc_address_from_bech32 req.operator))
    pub_key ← lift (
        or_fail (decode req.public_key_b64)
          (wrap "public_key_b64: %w" [] (external "illegal base64 data")))
    cap_hash ← lift (optional_hash req.capability_hash)
    pricing ← lift (pricing_terms d.int_from_string req.pricing)
    bond ← lift (map_err (wrap "initial_bond: %w" []) (to_sdk d.int_from_string req.initial_bond))
    assemble d "build_register_agent" owner req.payload_client_id
        (msg_register_agent (record {
          owner = owner;
          agent_id = d.agent_id_from_operator operator;
          operator = req.operator;
          public_key = pub_key;
          endpoint = req.endpoint;
          capability_hash = cap_hash;
          capabilities = req.capabilities;
          pricing = pricing;
          initial_bond = bond;
          metadata = req.metadata;
        }))
        no_summary

  unfoldable pub build_update_agent : BuildUpdateAgentInput → M W P
  build_update_agent req = do
    owner ← authorize d tenant
    cap_hash ← lift (optional_hash req.capability_hash)
    pricing ← lift (pricing_terms d.int_from_string req.pricing)
    assemble d "build_update_agent" owner req.payload_client_id
        (msg_update_agent (record {
          owner = owner;
          agent_id = req.agent_id;
          endpoint = req.endpoint;
          capability_hash = cap_hash;
          capabilities = req.capabilities;
          pricing = pricing;
          metadata = req.metadata;
        }))
        no_summary

  unfoldable pub build_deposit_bond : BuildBondInput → M W P
  build_deposit_bond req = do
    owner ← authorize d tenant
    amount ← lift (map_err (wrap "amount: %w" []) (to_sdk d.int_from_string req.amount))
    assemble d "build_deposit_bond" owner req.payload_client_id
        (msg_deposit_bond owner req.agent_id amount) (amount_summary req.amount)

  unfoldable pub build_withdraw_bond : BuildBondInput → M W P
  build_withdraw_bond req = do
    owner ← authorize d tenant
    amount ← lift (map_err (wrap "amount: %w" []) (to_sdk d.int_from_string req.amount))
    assemble d "build_withdraw_bond" owner req.payload_client_id
        (msg_withdraw_bond owner req.agent_id amount) (amount_summary req.amount)

  unfoldable pub build_deregister_agent : BuildDeregisterAgentInput → M W P
  build_deregister_agent req = do
    owner ← authorize d tenant
    assemble d "build_deregister_agent" owner req.payload_client_id
        (msg_deregister_agent owner req.agent_id) no_summary

  unfoldable pub build_create_delegation : BuildCreateDelegationInput → M W P
  build_create_delegation req = do
    delegator ← authorize d tenant
    limits ← lift (limit_terms d.int_from_string req.limits)
    assemble d "build_create_delegation" delegator req.payload_client_id
        (msg_create_delegation delegator req.agent_id limits req.expires_at) no_summary

  unfoldable pub build_update_delegation : BuildUpdateDelegationInput → M W P
  build_update_delegation req = do
    delegator ← authorize d tenant
    root_id ← lift (root_id_from_hex d.root_id_len req.root_id)
    limits ← lift (limit_terms d.int_from_string req.limits)
    assemble d "build_update_delegation" delegator req.payload_client_id
        (msg_update_delegation delegator root_id limits req.expires_at) no_summary

  unfoldable pub build_delegation_lifecycle :
      String → BuildDelegationRefInput → (String → Bytes → AgentMsg) → M W P
  build_delegation_lifecycle tool req mk = do
    delegator ← authorize d tenant
    root_id ← lift (root_id_from_hex d.root_id_len req.root_id)
    assemble d tool delegator req.payload_client_id (mk delegator root_id) no_summary

  unfoldable pub build_pause_delegation : BuildDelegationRefInput → M W P
  build_pause_delegation req =
      build_delegation_lifecycle "build_pause_delegation" req msg_pause_delegation

  unfoldable pub build_resume_delegation : BuildDelegationRefInput → M W P
  build_resume_delegation req =
      build_delegation_lifecycle "build_resume_delegation" req msg_resume_delegation

  unfoldable pub build_revoke_delegation : BuildDelegationRefInput → M W P
  build_revoke_delegation req =
      build_delegation_lifecycle "build_revoke_delegation" req msg_revoke_delegation

  unfoldable pub build_revoke_token : BuildRevokeTokenInput → M W P
  build_revoke_token req = do
    delegator ← authorize d tenant
    root_id ← lift (root_id_from_hex d.root_id_len req.root_id)
    token_hash ← lift (
        or_fail (decode_string req.token_hash)
          (wrap "token_hash must be hex: %w" [] (external "encoding/hex")))
    assemble d "build_revoke_token" delegator req.payload_client_id
        (msg_revoke_token delegator root_id token_hash) no_summary
