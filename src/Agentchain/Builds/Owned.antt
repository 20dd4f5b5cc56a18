-- ===== src/Agentchain/Builds/Owned.antt =====
-- A tenant is only ever given a transaction of its own owner to sign.
use svpchain_research_agent.Base.{
  ◌≡◌, refl, inl, inr, String, [], ◌∷◌, Option, none, some, ok, M, arith,
}
use svpchain_research_agent.Base.Results.{Result-cases}
use svpchain_research_agent.Base.State.{◌>>=◌}
use svpchain_research_agent.Chain.{AccountInfo}
use svpchain_research_agent.Delegated.{TenantContext, TenantPolicy}
use svpchain_research_agent.Agentchain.{
  AgentMsg, msg_register_agent, msg_update_agent, msg_deposit_bond, msg_withdraw_bond,
  msg_deregister_agent, msg_create_delegation, msg_update_delegation, msg_pause_delegation,
  msg_resume_delegation, msg_revoke_delegation, msg_revoke_token, Args, Summary, AgentDeps,
  authorize, assemble,
}

-- In whose name a message is.
abbrev pub sender_of : AgentMsg → String
sender_of (msg_register_agent r) = r.owner
sender_of (msg_update_agent u) = u.owner
sender_of (msg_deposit_bond owner a c) = owner
sender_of (msg_withdraw_bond owner a c) = owner
sender_of (msg_deregister_agent owner a) = owner
sender_of (msg_create_delegation delegator a l e) = delegator
sender_of (msg_update_delegation delegator r l e) = delegator
sender_of (msg_pause_delegation delegator r) = delegator
sender_of (msg_resume_delegation delegator r) = delegator
sender_of (msg_revoke_delegation delegator r) = delegator
sender_of (msg_revoke_token delegator r t) = delegator

module _ {W P : Type 0} (d : AgentDeps W P) where
  -- The assembler's payload for one message of the owner's, under the owner's account.
  pub record IsAssembled (owner : String) (payload : P) : Type 0 where
    pub msg : AgentMsg
    pub sender : sender_of msg ≡ owner
    pub valid : d.validate_msg msg ≡ ok tt
    pub before : W
    pub account : AccountInfo
    pub is_account : (d.account owner before).0 ≡ ok account
    pub args : Args
    pub one_message : args.msgs ≡ msg ∷ []
    pub signer : args.signer_address ≡ owner
    pub number : args.account_number ≡ account.account_number
    pub sequence : args.sequence ≡ account.sequence
    pub world : W
    pub assembled : (d.assemble_payload args world).0 ≡ ok payload

  pub assemble-IsAssembled :
      (tool owner client : String) (msg : AgentMsg) (summary : Summary) (w : W) (payload : P)
      → sender_of msg ≡ owner
      → (assemble d tool owner client msg summary w).0 ≡ ok payload
      → IsAssembled owner payload
  unfolding assemble
  assemble-IsAssembled tool owner client msg summary w payload own h =
      elim (Result-cases (d.account owner w).0) [
        | inr (x, q) ↦ absurd (ground arith)
        | inl (acc, q) ↦ record {
          msg = msg;
          sender = own;
          valid = ground arith;
          before = w;
          account = acc;
          is_account = q;
          args = record {
            msgs = msg ∷ [];
            signer_address = owner;
            account_number = acc.account_number;
            sequence = acc.sequence;
            client_id = client;
            summary = record summary { tool_name = tool; msg_type_url = d.msg_type_url msg };
          };
          one_message = refl;
          signer = refl;
          number = refl;
          sequence = refl;
          world = (d.account owner w).1;
          assembled = ground arith;
        }
      ]

  -- The caller is a tenant that the policy engine let pass, and it names this owner.
  pub record IsTenant (w : W) (tenant : Option TenantContext) (owner : String) : Type 0 where
    pub context : TenantContext
    pub present : tenant ≡ some context
    pub checked : (d.check_tenant context.tenant_id w).0 ≡ ok tt
    pub policy : TenantPolicy
    pub answered :
        (d.tenant_policy context.tenant_id (d.check_tenant context.tenant_id w).1).0 ≡ ok policy
    pub is_owner : owner ≡ policy.owner

  pub authorize-IsTenant :
      (tenant : Option TenantContext) (w : W) (owner : String)
      → (authorize d tenant w).0 ≡ ok owner
      → IsTenant w tenant owner
  unfolding authorize
  authorize-IsTenant none w owner h = cc
  authorize-IsTenant (some tc) w owner h = elim (Result-cases (d.check_tenant tc.tenant_id w).0) [
    | inr (x, q) ↦ absurd (ground arith)
    | inl (u, q) ↦
        elim (Result-cases (d.tenant_policy tc.tenant_id (d.check_tenant tc.tenant_id w).1).0) [
          | inr (x, r) ↦ absurd (ground arith)
          | inl (tp, r) ↦ record {
            context = tc;
            present = refl;
            checked = q;
            policy = tp;
            answered = r;
            is_owner = ground arith;
          }
        ]
  ]

  abbrev pub IsOwned : W → Option TenantContext → P → Type 0
  IsOwned w tenant payload = (owner : String) × IsTenant w tenant owner × IsAssembled owner payload

  module _ (tenant : Option TenantContext) (w : W) (payload : P) where
    pub with_owner :
        (f : String → M W P)
        → ((owner : String) (w₁ : W) → (f owner w₁).0 ≡ ok payload → IsAssembled owner payload)
        → ((authorize d tenant >>= f) w).0 ≡ ok payload
        → IsOwned w tenant payload
    with_owner f all h = elim (Result-cases (authorize d tenant w).0) [
      | inr (x, q) ↦ absurd (ground arith)
      | inl (owner, q) ↦ (
        owner,
        authorize-IsTenant tenant w owner q,
        all owner (authorize d tenant w).1 (ground arith),
      )
    ]
