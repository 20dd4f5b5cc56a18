-- ===== src/Agentchain/Builds/Operations.antt =====
-- The build operations, one by one.
use svpchain_research_agent.Base.{
  ◌≡◌, refl, inl, inr, String, [], Option, ok, wrap, external, Bytes, arith,
}
use svpchain_research_agent.Base.Base64.{decode}
use svpchain_research_agent.Base.Hex.{decode_string}
use svpchain_research_agent.Base.Results.{Result-cases, map_err, or_fail}
use svpchain_research_agent.Delegated.{TenantContext}
use svpchain_research_agent.Agentchain.{
  AgentMsg, msg_register_agent, msg_update_agent, msg_deposit_bond, msg_withdraw_bond,
  msg_deregister_agent, msg_create_delegation, msg_update_delegation, msg_revoke_token, AgentDeps,
}
use svpchain_research_agent.Agentchain.Coin.{to_sdk, root_id_from_hex}
use svpchain_research_agent.Agentchain.Inputs.{
  BuildRegisterAgentInput, BuildUpdateAgentInput, BuildBondInput, BuildDeregisterAgentInput,
  BuildCreateDelegationInput, BuildUpdateDelegationInput, BuildDelegationRefInput,
  BuildRevokeTokenInput, no_summary, amount_summary, optional_hash, pricing_terms, limit_terms,
}
use svpchain_research_agent.Agentchain.Builds.{
  build_register_agent, build_update_agent, build_deposit_bond, build_withdraw_bond,
  build_deregister_agent, build_create_delegation, build_update_delegation,
  build_delegation_lifecycle, build_revoke_token,
}
use svpchain_research_agent.Agentchain.Builds.Owned.{sender_of, IsAssembled, IsOwned}
use svpchain_research_agent.Agentchain.Builds.Owned

module _ {W P : Type 0} (d : AgentDeps W P) where
  module _ (tenant : Option TenantContext) (w : W) (payload : P) where
    pub register-IsOwned :
        (req : BuildRegisterAgentInput)
        → (build_register_agent d tenant req w).0 ≡ ok payload
        → IsOwned d w tenant payload
    unfolding build_register_agent
    register-IsOwned req h =
        Owned.with_owner d tenant w payload _
          (λ owner w₁ g.
            elim (Result-cases
              (map_err (wrap "operator: %w" []) (d.acc_address_from_bech32 req.operator))) [
                | inr (x, q_operator) ↦ absurd (ground arith)
                | inl (operator, q_operator) ↦
                    elim (Result-cases (
                      or_fail (decode req.public_key_b64)
                        (wrap "public_key_b64: %w" [] (external "illegal base64 data")))) [
                          | inr (x, q_key) ↦ absurd (ground arith)
                          | inl (key, q_key) ↦
                              elim (Result-cases (optional_hash req.capability_hash)) [
                                | inr (x, q_hash) ↦ absurd (ground arith)
                                | inl (hash, q_hash) ↦
                                    elim (Result-cases
                                      (pricing_terms d.int_from_string req.pricing)) [
                                        | inr (x, q_pricing) ↦ absurd (ground arith)
                                        | inl (pricing, q_pricing) ↦
                                            elim (Result-cases (
                                              map_err (wrap "initial_bond: %w" [])
                                                (to_sdk d.int_from_string req.initial_bond))) [
                                                  | inr (x, q_bond) ↦ absurd (ground arith)
                                                  | inl (bond, q_bond) ↦
                                                      Owned.assemble-IsAssembled d
                                                        "build_register_agent" owner
                                                        req.payload_client_id
                                                        (msg_register_agent (record {
                                                          owner = owner;
                                                          agent_id =
                                                            d.agent_id_from_operator operator;
                                                          operator = req.operator;
                                                          public_key = key;
                                                          endpoint = req.endpoint;
                                                          capability_hash = hash;
                                                          capabilities = req.capabilities;
                                                          pricing = pricing;
                                                          initial_bond = bond;
                                                          metadata = req.metadata;
                                                        }))
                                                        no_summary w₁ payload refl (ground arith)
                                                ]
                                      ]
                              ]
                        ]
              ])
          h

    pub update-IsOwned :
        (req : BuildUpdateAgentInput)
        → (build_update_agent d tenant req w).0 ≡ ok payload
        → IsOwned d w tenant payload
    unfolding build_update_agent
    update-IsOwned req h =
        Owned.with_owner d tenant w payload _
          (λ owner w₁ g. elim (Result-cases (optional_hash req.capability_hash)) [
            | inr (x, q_hash) ↦ absurd (ground arith)
            | inl (hash, q_hash) ↦
                elim (Result-cases (pricing_terms d.int_from_string req.pricing)) [
                  | inr (x, q_pricing) ↦ absurd (ground arith)
                  | inl (pricing, q_pricing) ↦
                      Owned.assemble-IsAssembled d "build_update_agent" owner req.payload_client_id
                        (msg_update_agent (record {
                          owner = owner;
                          agent_id = req.agent_id;
                          endpoint = req.endpoint;
                          capability_hash = hash;
                          capabilities = req.capabilities;
                          pricing = pricing;
                          metadata = req.metadata;
                        }))
                        no_summary w₁ payload refl (ground arith)
                ]
          ])
          h

    pub deposit-IsOwned :
        (req : BuildBondInput)
        → (build_deposit_bond d tenant req w).0 ≡ ok payload
        → IsOwned d w tenant payload
    unfolding build_deposit_bond
    deposit-IsOwned req h =
        Owned.with_owner d tenant w payload _
          (λ owner w₁ g.
            elim (Result-cases
              (map_err (wrap "amount: %w" []) (to_sdk d.int_from_string req.amount))) [
                | inr (x, q_amount) ↦ absurd (ground arith)
                | inl (amount, q_amount) ↦
                    Owned.assemble-IsAssembled d "build_deposit_bond" owner req.payload_client_id
                      (msg_deposit_bond owner req.agent_id amount) (amount_summary req.amount) w₁
                      payload refl (ground arith)
              ])
          h

    pub withdraw-IsOwned :
        (req : BuildBondInput)
        → (build_withdraw_bond d tenant req w).0 ≡ ok payload
        → IsOwned d w tenant payload
    unfolding build_withdraw_bond
    withdraw-IsOwned req h =
        Owned.with_owner d tenant w payload _
          (λ owner w₁ g.
            elim (Result-cases
              (map_err (wrap "amount: %w" []) (to_sdk d.int_from_string req.amount))) [
                | inr (x, q_amount) ↦ absurd (ground arith)
                | inl (amount, q_amount) ↦
                    Owned.assemble-IsAssembled d "build_withdraw_bond" owner req.payload_client_id
                      (msg_withdraw_bond owner req.agent_id amount) (amount_summary req.amount) w₁
                      payload refl (ground arith)
              ])
          h

    pub deregister-IsOwned :
        (req : BuildDeregisterAgentInput)
        → (build_deregister_agent d tenant req w).0 ≡ ok payload
        → IsOwned d w tenant payload
    unfolding build_deregister_agent
    deregister-IsOwned req h =
        Owned.with_owner d tenant w payload _
          (λ owner w₁ g.
            Owned.assemble-IsAssembled d "build_deregister_agent" owner req.payload_client_id
              (msg_deregister_agent owner req.agent_id) no_summary w₁ payload refl g)
          h

    pub create-IsOwned :
        (req : BuildCreateDelegationInput)
        → (build_create_delegation d tenant req w).0 ≡ ok payload
        → IsOwned d w tenant payload
    unfolding build_create_delegation
    create-IsOwned req h =
        Owned.with_owner d tenant w payload _
          (λ owner w₁ g. elim (Result-cases (limit_terms d.int_from_string req.limits)) [
            | inr (x, q_limits) ↦ absurd (ground arith)
            | inl (limits, q_limits) ↦
                Owned.assemble-IsAssembled d "build_create_delegation" owner req.payload_client_id
                  (msg_create_delegation owner req.agent_id limits req.expires_at) no_summary w₁
                  payload refl (ground arith)
          ])
          h

    pub change-IsOwned :
        (req : BuildUpdateDelegationInput)
        → (build_update_delegation d tenant req w).0 ≡ ok payload
        → IsOwned d w tenant payload
    unfolding build_update_delegation
    change-IsOwned req h =
        Owned.with_owner d tenant w payload _
          (λ owner w₁ g. elim (Result-cases (root_id_from_hex d.root_id_len req.root_id)) [
            | inr (x, q_root) ↦ absurd (ground arith)
            | inl (root, q_root) ↦ elim (Result-cases (limit_terms d.int_from_string req.limits)) [
              | inr (x, q_limits) ↦ absurd (ground arith)
              | inl (limits, q_limits) ↦
                  Owned.assemble-IsAssembled d "build_update_delegation" owner req.payload_client_id
                    (msg_update_delegation owner root limits req.expires_at) no_summary w₁ payload
                    refl (ground arith)
            ]
          ])
          h

    pub revoke_token-IsOwned :
        (req : BuildRevokeTokenInput)
        → (build_revoke_token d tenant req w).0 ≡ ok payload
        → IsOwned d w tenant payload
    unfolding build_revoke_token
    revoke_token-IsOwned req h =
        Owned.with_owner d tenant w payload _
          (λ owner w₁ g. elim (Result-cases (root_id_from_hex d.root_id_len req.root_id)) [
            | inr (x, q_root) ↦ absurd (ground arith)
            | inl (root, q_root) ↦
                elim (Result-cases (
                  or_fail (decode_string req.token_hash)
                    (wrap "token_hash must be hex: %w" [] (external "encoding/hex")))) [
                      | inr (x, q_token) ↦ absurd (ground arith)
                      | inl (token, q_token) ↦
                          Owned.assemble-IsAssembled d "build_revoke_token" owner
                            req.payload_client_id (msg_revoke_token owner root token) no_summary w₁
                            payload refl (ground arith)
                    ]
          ])
          h

    pub lifecycle-IsOwned :
        (tool : String) (req : BuildDelegationRefInput) (mk : String → Bytes → AgentMsg)
        → ((owner : String) (root_id : Bytes) → sender_of (mk owner root_id) ≡ owner)
        → (build_delegation_lifecycle d tenant tool req mk w).0 ≡ ok payload
        → IsOwned d w tenant payload
    unfolding build_delegation_lifecycle
    lifecycle-IsOwned tool req mk own h =
        Owned.with_owner d tenant w payload _
          (λ owner w₁ g. elim (Result-cases (root_id_from_hex d.root_id_len req.root_id)) [
            | inr (x, q) ↦ absurd (ground arith)
            | inl (root, q) ↦
                Owned.assemble-IsAssembled d tool owner req.payload_client_id (mk owner root)
                  no_summary w₁ payload (own owner root) (ground arith)
          ])
          h
