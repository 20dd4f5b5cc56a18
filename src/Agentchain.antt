-- ===== src/Agentchain.antt =====
-- internal/agentchain: the registry and delegation operations that a tenant signs itself. The
-- policy engine, the account query, the assembler and the chain's own types are the fields of
-- `AgentDeps`; `W` is the world that they read and change, and `P` the assembler's payload.
pub mod Coin
pub mod Inputs
pub mod Builds
pub mod Broadcast
pub mod Queries
use svpchain_research_agent.Base.{
  ℕ, ℤ, String, List, [], ◌∷◌, Option, none, some, Result, errorf, wrap, no_tenant, Bytes, M,
}
use svpchain_research_agent.Base.State.{◌>>=◌, ◌>>◌, lift, pure, throw, on_error}
use svpchain_research_agent.Chain.{SdkCoin, AccountInfo, BroadcastResult}
use svpchain_research_agent.Delegated.{TenantContext, TenantPolicy}

pub record PricingTerms : Type 0 where
  pub per_call : List SdkCoin
  pub unit : String

pub record LimitTerms : Type 0 where
  pub spend_limit_total : List SdkCoin
  pub spend_limit_daily : List SdkCoin
  pub svc_spend_limit_total : List SdkCoin
  pub svc_spend_limit_daily : List SdkCoin
  pub denoms : List String
  pub actions : List String
  pub skills : List String
  pub contracts : List String
  pub subaccounts : List ℕ
  pub max_depth : ℕ
  pub max_token_ttl_seconds : ℕ

pub record Registration : Type 0 where
  pub owner : String
  pub agent_id : String
  pub operator : String
  pub public_key : Bytes
  pub endpoint : String
  pub capability_hash : Bytes
  pub capabilities : List String
  pub pricing : Option PricingTerms
  pub initial_bond : SdkCoin
  pub metadata : String

pub record Update : Type 0 where
  pub owner : String
  pub agent_id : String
  pub endpoint : String
  pub capability_hash : Bytes
  pub capabilities : List String
  pub pricing : Option PricingTerms
  pub metadata : String

-- The messages of x/agent and x/agentwallet. The first text of each is who sends it.
pub data AgentMsg : Type 0 where
  msg_register_agent : Registration → AgentMsg
  msg_update_agent : Update → AgentMsg
  msg_deposit_bond msg_withdraw_bond : (owner agent_id : String) (amount : SdkCoin) → AgentMsg
  msg_deregister_agent : (owner agent_id : String) → AgentMsg
  msg_create_delegation :
      (delegator agent_id : String) (limits : LimitTerms) (expires_at : ℤ) → AgentMsg
  msg_update_delegation :
      (delegator : String) (root_id : Bytes) (limits : LimitTerms) (expires_at : ℤ) → AgentMsg
  msg_pause_delegation msg_resume_delegation msg_revoke_delegation :
      (delegator : String) (root_id : Bytes) → AgentMsg
  msg_revoke_token : (delegator : String) (root_id token_hash : Bytes) → AgentMsg

-- payload.Summary, and builder.Args.
pub record Summary : Type 0 where
  pub tool_name : String
  pub msg_type_url : String
  pub amount_human : String
  pub denom : String

pub record Args : Type 0 where
  pub msgs : List AgentMsg
  pub signer_address : String
  pub account_number : ℕ
  pub sequence : ℕ
  pub client_id : String
  pub summary : Summary

pub record AgentDeps (W P : Type 0) : Type 0 where
  pub check_tenant : String → M W (Unit {0})
  pub tenant_policy : String → M W TenantPolicy
  pub account : String → M W AccountInfo
  pub assemble_payload : Args → M W P
  pub validate_msg : AgentMsg → Result (Unit {0})
  pub msg_type_url : AgentMsg → String
  pub acc_address_from_bech32 : String → Result Bytes
  pub agent_id_from_operator : Bytes → String
  pub int_from_string : String → Option ℤ
  pub root_id_len : ℕ
  pub broadcast_sync : Bytes → M W BroadcastResult

module _ {W P : Type 0} (d : AgentDeps W P) where
  -- The owner of the tenant that the context carries.
  unfoldable pub authorize : Option TenantContext → M W String
  authorize none = throw no_tenant
  authorize (some tc) = do
    d.check_tenant tc.tenant_id
    tp ← d.tenant_policy tc.tenant_id
    pure tp.owner

  unfoldable pub assemble : String → String → String → AgentMsg → Summary → M W P
  assemble tool signer client_id msg summary = do
    lift (d.validate_msg msg)
    acc ← on_error (wrap "read account state: %w" []) (d.account signer)
    on_error (wrap "assemble: %w" []) (
        d.assemble_payload (record {
          msgs = msg ∷ [];
          signer_address = signer;
          account_number = acc.account_number;
          sequence = acc.sequence;
          client_id = client_id;
          summary = record summary { tool_name = tool; msg_type_url = d.msg_type_url msg };
        }))
