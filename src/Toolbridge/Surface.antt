-- ===== src/Toolbridge/Surface.antt =====
-- internal/toolbridge: what the families register together.
use svpchain_research_agent.Base.{
  ◌≡◌, refl, ap, ◌∙◌, true, String, List, [], ◌∷◌, ◌++◌, map, Option, none, some, Result, ok, All,
  M, lookup, string_eq, fun_ext,
}
use svpchain_research_agent.Base.Results.{◌>>=◌}
use svpchain_research_agent.Json.{RawMessage}
use svpchain_research_agent.Toolbridge.{
  Registry, add, add_refusing, refusing, adapt_native, adapt_strict_native, lookup_op,
}
use svpchain_research_agent.Toolbridge.Handlers.{Handlers}
use svpchain_research_agent.Toolbridge.Chain.{
  ChainMethods, agent_registry_tools, delegation_tools, register_agent_chain,
}
use svpchain_research_agent.Toolbridge.Families.{
  skill_market_data, skill_account, skill_trading, skill_funds, skill_broadcast, skill_auth,
  skill_faucet, skill_evm, skill_agent_registry, skill_delegation, skill_execution,
  market_data_tools, account_tools, trading_tools, funds_tools, broadcast_tools, auth_tools,
  faucet_tools, evm_broadcast_tools, evm_defi_tools, register_market_data, register_account,
  register_trading, register_funds, register_broadcast, register_auth, register_faucet,
  register_evm, register_evm_broadcast, register_evm_defi, add_all, new,
}
use svpchain_research_agent.Toolbridge.Execution.{
  ExecutionMethods, execution_perps_tools, execution_core_tools, execution_tools, keyless_reason,
  refuse_all, register_execution, register_execution_perps, register_execution_core, perps_tools,
  core_tools,
}
use svpchain_research_agent.Toolbridge.Table.{names, are_fresh, entries_of, add_all-append}

-- Every operation of the full surface, in the order of its registration.
abbrev pub operation_names : List String
operation_names =
    "list_markets" ∷ "get_market" ∷ "get_orderbook" ∷ "get_oracle_price" ∷ "get_candles"
    ∷ "get_trades" ∷ "get_sparklines" ∷ "get_historical_funding" ∷ "get_height" ∷ "get_time"
    ∷ "get_subaccount" ∷ "get_live_subaccount" ∷ "get_balance" ∷ "whoami" ∷ "get_orders"
    ∷ "get_order" ∷ "get_fills" ∷ "get_transfers" ∷ "get_pnl" ∷ "get_historical_pnl"
    ∷ "get_funding_payments" ∷ "build_place_limit_order" ∷ "build_place_market_order"
    ∷ "build_place_conditional_order" ∷ "build_cancel_order" ∷ "build_batch_cancel_orders"
    ∷ "build_deposit_to_subaccount" ∷ "build_withdraw_from_subaccount"
    ∷ "build_transfer_between_subaccounts" ∷ "build_bank_send" ∷ "get_transfer_out_cap"
    ∷ "set_transfer_out_cap" ∷ "broadcast_signed_tx" ∷ "get_tx_status" ∷ "auth_challenge"
    ∷ "auth_verify" ∷ "list_faucet_tokens" ∷ "faucet_claim" ∷ "broadcast_evm_tx" ∷ "evm_tx_status"
    ∷ "quote_swap" ∷ "build_token_approval" ∷ "build_swap" ∷ "build_bridge_deposit"
    ∷ "build_bridge_deposit_inbound" ∷ "build_erc20_transfer" ∷ "build_erc20_approve"
    ∷ "build_erc20_transfer_from" ∷ "build_erc721_transfer_from" ∷ "build_erc721_safe_transfer_from"
    ∷ "build_erc721_approve" ∷ "build_erc721_set_approval_for_all" ∷ "get_agent"
    ∷ "get_agent_by_operator" ∷ "list_agents" ∷ "get_agents_by_owner" ∷ "get_agents_by_capability"
    ∷ "get_agent_params" ∷ "broadcast_agent_chain_tx" ∷ "build_register_agent"
    ∷ "build_update_agent" ∷ "build_deposit_bond" ∷ "build_withdraw_bond" ∷ "build_deregister_agent"
    ∷ "get_delegation" ∷ "get_delegations_by_delegator" ∷ "get_delegation_epoch"
    ∷ "get_delegation_spend" ∷ "get_agentwallet_params" ∷ "build_create_delegation"
    ∷ "build_update_delegation" ∷ "build_pause_delegation" ∷ "build_resume_delegation"
    ∷ "build_revoke_delegation" ∷ "build_revoke_token" ∷ "execute_place_order"
    ∷ "execute_cancel_order" ∷ "execute_batch_cancel" ∷ "execute_deposit_to_subaccount"
    ∷ "execute_record_spend" ∷ "get_settlement" ∷ "agent_claim" ∷ "agent_identity"
    ∷ "agent_self_register" ∷ "agent_self_update" ∷ []

chained :
    {A B : Type 0} (m : Result A) (k : A → Result B) (a : A) (b : Result B)
    → m ≡ ok a
    → k a ≡ b
    → (m >>= k) ≡ b
chained m k a b p q = rw p q

module _ {S A : Type 0} where
  abbrev refused : List String → List (String × (RawMessage → M S A))
  refused ts = map (λ t. (t, refusing keyless_reason)) ts

  refuse_all-append :
      (ts : List String) (r : Registry S A)
      → refuse_all ts r ≡ add_all skill_execution (refused ts) r
  unfolding refuse_all add_refusing add_all
  refuse_all-append [] r = refl
  refuse_all-append (t ∷ ts) r =
      ap (λ k. add skill_execution t (refusing keyless_reason) r >>= k)
        (fun_ext λ q. refuse_all-append ts q)

  abbrev mcp_table : Handlers S A → Registry S A
  mcp_table h =
      (((((((entries_of skill_market_data (market_data_tools h)
                    ++ entries_of skill_account (account_tools h))
                  ++ entries_of skill_trading (trading_tools h))
                ++ entries_of skill_funds (funds_tools h))
              ++ entries_of skill_broadcast (broadcast_tools h))
            ++ entries_of skill_auth (auth_tools h))
          ++ entries_of skill_faucet (faucet_tools h))
        ++ entries_of skill_evm (evm_broadcast_tools h))
      ++ entries_of skill_evm (evm_defi_tools h)

  new-table : (h : Handlers S A) → new h ≡ ok (mcp_table h)
  unfolding new register_market_data register_account register_trading register_funds
      register_broadcast register_auth register_faucet register_evm register_evm_broadcast
      register_evm_defi
  new-table h =
      let r1 : Registry S A = entries_of skill_market_data (market_data_tools h) in
      let r2 : Registry S A = r1 ++ entries_of skill_account (account_tools h) in
      let r3 : Registry S A = r2 ++ entries_of skill_trading (trading_tools h) in
      let r4 : Registry S A = r3 ++ entries_of skill_funds (funds_tools h) in
      let r5 : Registry S A = r4 ++ entries_of skill_broadcast (broadcast_tools h) in
      let r6 : Registry S A = r5 ++ entries_of skill_auth (auth_tools h) in
      let r7 : Registry S A = r6 ++ entries_of skill_faucet (faucet_tools h) in
      let r8 : Registry S A = r7 ++ entries_of skill_evm (evm_broadcast_tools h) in
      let r9 : Registry S A = r8 ++ entries_of skill_evm (evm_defi_tools h) in
      chained _ _ r1 _ (add_all-append skill_market_data (market_data_tools h) [] refl) (
        chained _ _ r2 _ (add_all-append skill_account (account_tools h) r1 refl) (
          chained _ _ r3 _ (add_all-append skill_trading (trading_tools h) r2 refl) (
            chained _ _ r4 _ (add_all-append skill_funds (funds_tools h) r3 refl) (
              chained _ _ r5 _ (add_all-append skill_broadcast (broadcast_tools h) r4 refl) (
                chained _ _ r6 _ (add_all-append skill_auth (auth_tools h) r5 refl) (
                  chained _ _ r7 _ (add_all-append skill_faucet (faucet_tools h) r6 refl) (
                    chained _ _ r8 _ (add_all-append skill_evm (evm_broadcast_tools h) r7 refl)
                      ((add_all-append skill_evm (evm_defi_tools h) r8 refl)))))))))

  -- The registry of a binary that composes every family.
  abbrev pub full :
      Handlers S A → ChainMethods S A → Option (ExecutionMethods S A) → Result (Registry S A)
  full h c e = new h >>= register_agent_chain c >>= register_execution e

  abbrev perps_calls : Option (ExecutionMethods S A) → List (String × (RawMessage → M S A))
  perps_calls none = refused execution_perps_tools
  perps_calls (some s) = perps_tools s

  abbrev core_calls : Option (ExecutionMethods S A) → List (String × (RawMessage → M S A))
  core_calls none = refused execution_core_tools
  core_calls (some s) = core_tools s

  register_perps-append :
      (e : Option (ExecutionMethods S A)) (r : Registry S A)
      → register_execution_perps e r ≡ add_all skill_execution (perps_calls e) r
  unfolding register_execution_perps
  register_perps-append none r = refuse_all-append execution_perps_tools r
  register_perps-append (some s) r = refl

  register_core-append :
      (e : Option (ExecutionMethods S A)) (r : Registry S A)
      → register_execution_core e r ≡ add_all skill_execution (core_calls e) r
  unfolding register_execution_core
  register_core-append none r = refuse_all-append execution_core_tools r
  register_core-append (some s) r = refl

  module _ (h : Handlers S A) (c : ChainMethods S A) where
    abbrev chain_table : Registry S A
    chain_table =
        (mcp_table h ++ entries_of skill_agent_registry (agent_registry_tools c))
        ++ entries_of skill_delegation (delegation_tools c)

    abbrev perps_table : Option (ExecutionMethods S A) → Registry S A
    perps_table e = chain_table ++ entries_of skill_execution (perps_calls e)

    abbrev table : Option (ExecutionMethods S A) → Registry S A
    table e = perps_table e ++ entries_of skill_execution (core_calls e)

    chain-table : register_agent_chain c (mcp_table h) ≡ ok chain_table
    unfolding register_agent_chain
    chain-table =
        chained _ _ (mcp_table h ++ entries_of skill_agent_registry (agent_registry_tools c)) _
          (add_all-append skill_agent_registry (agent_registry_tools c) (mcp_table h) refl)
          (add_all-append skill_delegation (delegation_tools c) _ refl)

    fresh_perps :
        (e : Option (ExecutionMethods S A))
        → are_fresh (names chain_table) (names (perps_calls e)) ≡ true
    fresh_perps none = refl
    fresh_perps (some s) = refl

    fresh_core :
        (e : Option (ExecutionMethods S A))
        → are_fresh (names (perps_table e)) (names (core_calls e)) ≡ true
    fresh_core none = refl
    fresh_core (some s) = refl

    execution-table :
        (e : Option (ExecutionMethods S A)) → register_execution e chain_table ≡ ok (table e)
    unfolding register_execution
    execution-table e =
        chained _ _ (perps_table e) _
          (register_perps-append e chain_table
            ∙ add_all-append skill_execution (perps_calls e) chain_table (fresh_perps e))
          (register_core-append e (perps_table e)
            ∙ add_all-append skill_execution (core_calls e) (perps_table e) (fresh_core e))

    full-table : (e : Option (ExecutionMethods S A)) → full h c e ≡ ok (table e)
    full-table e =
        chained _ _ chain_table _ (chained _ _ (mcp_table h) _ (new-table h) chain-table)
          (execution-table e)

    abbrev IsCalled : Registry S A → String → (RawMessage → M S A) → Type 0
    IsCalled r tool call =
        lookup_op tool r ≡ some (record { skill = skill_execution; tool = tool; call = call })

    -- What the execution tools of a registry do.
    abbrev pub IsServed : Option (ExecutionMethods S A) → Registry S A → Type 0
    IsServed none r = All (λ t. IsCalled r t (refusing keyless_reason)) execution_tools
    IsServed (some s) r =
        IsCalled r "execute_place_order" (adapt_strict_native s.execute_place_order)
        × IsCalled r "execute_cancel_order" (adapt_strict_native s.execute_cancel_order)
        × IsCalled r "execute_batch_cancel" (adapt_strict_native s.execute_batch_cancel)
        × IsCalled r "execute_deposit_to_subaccount"
            (adapt_strict_native s.execute_deposit_to_subaccount)
        × IsCalled r "execute_record_spend" (adapt_strict_native s.execute_record_spend)
        × IsCalled r "get_settlement" (adapt_native s.get_settlement)
        × IsCalled r "agent_claim" (adapt_native s.claim)
        × IsCalled r "agent_identity" (adapt_native s.identity)
        × IsCalled r "agent_self_register" (adapt_native s.self_register)
        × IsCalled r "agent_self_update" (adapt_native s.self_update)

    table-IsServed : (e : Option (ExecutionMethods S A)) → IsServed e (table e)
    unfolding lookup_op lookup
    table-IsServed none =
        (refl, (refl, (refl, (refl, (refl, (refl, (refl, (refl, (refl, (refl, tt))))))))))
    table-IsServed (some s) = (refl, refl, refl, refl, refl, refl, refl, refl, refl, refl)

    table-names : (e : Option (ExecutionMethods S A)) → names (table e) ≡ operation_names
    table-names none = refl
    table-names (some s) = refl

    -- Registering every family never meets a tool twice, and gives the same operations with an
    -- execution service as without one: without it the execution tools all refuse for want of an
    -- operator key; with it the four order and deposit tools and the recording of a spend run the
    -- service's methods behind the check of their arguments' keys, and the settlement query, the
    -- claim, the identity, the self-registration and the self-update run theirs without it.
    pub full-IsServed :
        (e : Option (ExecutionMethods S A))
        → (r : Registry S A) × (full h c e ≡ ok r) × (names r ≡ operation_names) × IsServed e r
    full-IsServed e = (table e, full-table e, table-names e, table-IsServed e)
