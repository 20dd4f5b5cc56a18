-- ===== src/Tests/Toolbridge.antt =====
-- The table of operations at concrete inputs.
use mathlib.Core.List.Permᴰ
use svpchain_research_agent.Base.{
  ℕ, pos, ◌≡◌, ◌⊎◌, true, String, [], ◌∷◌, none, some, ok, err, Error, refl, lookup, string_eq,
}
use svpchain_research_agent.Base.Sort.{IsSorted, sort_strings, place, at_most}
use svpchain_research_agent.Json as Json
use svpchain_research_agent.Json.{RawMessage, value, obj, field, end}
use svpchain_research_agent.Toolbridge.{
  Native, Handler, Op, Registry, json_keys_of, adapt_native, adapt_strict_native,
}
use svpchain_research_agent.Toolbridge.Adapter.{AreKnown, adapt_strict-AreKnown}
use svpchain_research_agent.Toolbridge.Handlers.{Handlers}
use svpchain_research_agent.Toolbridge.Chain.{ChainMethods}
use svpchain_research_agent.Toolbridge.Execution.{ExecutionMethods}
use svpchain_research_agent.Toolbridge.Skills.{by_skill, or_empty, by_skill-IsGrouped}
use svpchain_research_agent.Toolbridge.Table.{names}
use svpchain_research_agent.Toolbridge.Surface.{full, IsServed, operation_names, full-IsServed}

-- Counts its calls.
abbrev deposit : Native ℕ String
deposit = record {
  Input = String;
  zero_input = "";
  unmarshal_input = λ raw. ok "deposit";
  input_fields =
      some (record { name = "Deposit"; is_exported = true; json_tag = "deposit,omitempty" } ∷ []);
  call = λ i n. (ok i, 1);
}

abbrev flat : RawMessage
flat = value (obj (field "subaccount" (Json.int (pos 3)) end))

adapt_strict-AreKnown_example :
    ((e : Error) × (AreKnown (json_keys_of deposit.input_fields) flat → ⊥)
      × (adapt_strict_native deposit flat 0 ≡ (err e, 0)))
    ⊎ AreKnown (json_keys_of deposit.input_fields) flat
      × (adapt_strict_native deposit flat 0 ≡ adapt_native deposit flat 0)
adapt_strict-AreKnown_example = adapt_strict-AreKnown flat 0 deposit

abbrev reading : Handler ℕ String
reading = record {
  Input = String;
  zero_input = "";
  unmarshal_input = λ raw. ok "";
  call = λ i n. (ok (none, i), n);
}

abbrev pub handlers : Handlers ℕ String
handlers = record {
  list_markets = reading;
  get_market = reading;
  get_orderbook = reading;
  get_oracle_price = reading;
  get_candles = reading;
  get_trades = reading;
  get_sparklines = reading;
  get_historical_funding = reading;
  get_height = reading;
  get_time = reading;
  get_subaccount = reading;
  get_live_subaccount = reading;
  get_balance = reading;
  whoami = reading;
  get_orders = reading;
  get_order = reading;
  get_fills = reading;
  get_transfers = reading;
  get_pnl = reading;
  get_historical_pnl = reading;
  get_funding_payments = reading;
  build_place_limit_order = reading;
  build_place_market_order = reading;
  build_place_conditional_order = reading;
  build_cancel_order = reading;
  build_batch_cancel_orders = reading;
  build_deposit_to_subaccount = reading;
  build_withdraw_from_subaccount = reading;
  build_transfer_between_subaccounts = reading;
  build_bank_send = reading;
  get_transfer_out_cap = reading;
  set_transfer_out_cap = reading;
  broadcast_signed_tx = reading;
  get_tx_status = reading;
  auth_challenge = reading;
  auth_verify = reading;
  list_faucet_tokens = reading;
  faucet_claim = reading;
  broadcast_evm_tx = reading;
  evm_tx_status = reading;
  quote_swap = reading;
  build_token_approval = reading;
  build_swap = reading;
  build_bridge_deposit = reading;
  build_bridge_deposit_inbound = reading;
  build_erc20_transfer = reading;
  build_erc20_approve = reading;
  build_erc20_transfer_from = reading;
  build_erc721_transfer_from = reading;
  build_erc721_safe_transfer_from = reading;
  build_erc721_approve = reading;
  build_erc721_set_approval_for_all = reading;
}

abbrev pub methods : ChainMethods ℕ String
methods = record {
  get_agent = deposit;
  get_agent_by_operator = deposit;
  list_agents = deposit;
  get_agents_by_owner = deposit;
  get_agents_by_capability = deposit;
  get_agent_params = deposit;
  broadcast_signed_tx = deposit;
  build_register_agent = deposit;
  build_update_agent = deposit;
  build_deposit_bond = deposit;
  build_withdraw_bond = deposit;
  build_deregister_agent = deposit;
  get_delegation = deposit;
  get_delegations_by_delegator = deposit;
  get_delegation_epoch = deposit;
  get_delegation_spend = deposit;
  get_agentwallet_params = deposit;
  build_create_delegation = deposit;
  build_update_delegation = deposit;
  build_pause_delegation = deposit;
  build_resume_delegation = deposit;
  build_revoke_delegation = deposit;
  build_revoke_token = deposit;
}

abbrev pub execution : ExecutionMethods ℕ String
execution = record {
  execute_place_order = deposit;
  execute_cancel_order = deposit;
  execute_batch_cancel = deposit;
  execute_deposit_to_subaccount = deposit;
  execute_record_spend = deposit;
  get_settlement = deposit;
  claim = deposit;
  identity = deposit;
  self_register = deposit;
  self_update = deposit;
}

full-IsServed_example :
    (r : Registry ℕ String) × (full handlers methods none ≡ ok r)
    × (names r ≡ operation_names)
    × IsServed handlers methods none r
full-IsServed_example = full-IsServed handlers methods none

abbrev op : String → String → Op ℕ String
op skill tool = record { skill = skill; tool = tool; call = λ raw n. (ok tool, n) }

abbrev three : Registry ℕ String
three =
    ("get_fills", op "account" "get_fills")
    ∷ ("get_balance", op "account" "get_balance")
    ∷ ("get_time", op "market" "get_time")
    ∷ []

abbrev visited : Registry ℕ String
visited =
    ("get_balance", op "account" "get_balance")
    ∷ ("get_fills", op "account" "get_fills")
    ∷ ("get_time", op "market" "get_time")
    ∷ []

by_skill-IsGrouped_example :
    (lookup "account" (by_skill visited) ≡ some ("get_balance" ∷ "get_fills" ∷ []))
    × IsSorted (or_empty (lookup "account" (by_skill visited)))
unfolding sort_strings place at_most
by_skill-IsGrouped_example = by_skill-IsGrouped three visited ∣ Permᴰ.swap refl refl ∣₁ "account"
