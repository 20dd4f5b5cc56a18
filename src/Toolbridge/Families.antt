-- ===== src/Toolbridge/Families.antt =====
-- internal/toolbridge/register.go: the families of operations that a binary
-- composes its registry from.
use svpchain_research_agent.Base.{String, List, [], ◌∷◌, Result, ok}
use svpchain_research_agent.Base.Results.{◌>>=◌}
use svpchain_research_agent.Json.{RawMessage}
use svpchain_research_agent.Base.{M}
use svpchain_research_agent.Toolbridge.Handlers.{Handlers}
use svpchain_research_agent.Toolbridge.{Registry, add, adapt}

abbrev pub skill_market_data : String
skill_market_data = "svpchain-market-data"

abbrev pub skill_account : String
skill_account = "svpchain-account"

abbrev pub skill_trading : String
skill_trading = "svpchain-trading"

abbrev pub skill_funds : String
skill_funds = "svpchain-funds"

abbrev pub skill_broadcast : String
skill_broadcast = "svpchain-broadcast"

abbrev pub skill_auth : String
skill_auth = "svpchain-auth"

abbrev pub skill_faucet : String
skill_faucet = "svpchain-faucet"

abbrev pub skill_evm : String
skill_evm = "svpchain-evm"

abbrev pub skill_agent_registry : String
skill_agent_registry = "svpchain-agent-registry"

abbrev pub skill_delegation : String
skill_delegation = "svpchain-delegation"

abbrev pub skill_execution : String
skill_execution = "svpchain-execution"

module _ {S A : Type 0} where
  -- One `add` after the other.
  unfoldable pub add_all :
      String → List (String × (RawMessage → M S A)) → Registry S A → Result (Registry S A)
  unfolding add
  add_all skill [] r = ok r
  add_all skill ((tool, call) ∷ ts) r = add skill tool call r >>= add_all skill ts

  abbrev pub market_data_tools : Handlers S A → List (String × (RawMessage → M S A))
  market_data_tools h =
      ("list_markets", adapt h.list_markets)
      ∷ ("get_market", adapt h.get_market)
      ∷ ("get_orderbook", adapt h.get_orderbook)
      ∷ ("get_oracle_price", adapt h.get_oracle_price)
      ∷ ("get_candles", adapt h.get_candles)
      ∷ ("get_trades", adapt h.get_trades)
      ∷ ("get_sparklines", adapt h.get_sparklines)
      ∷ ("get_historical_funding", adapt h.get_historical_funding)
      ∷ ("get_height", adapt h.get_height)
      ∷ ("get_time", adapt h.get_time)
      ∷ []

  unfoldable pub register_market_data : Handlers S A → Registry S A → Result (Registry S A)
  unfolding add_all adapt
  register_market_data h r = add_all skill_market_data (market_data_tools h) r

  abbrev pub account_tools : Handlers S A → List (String × (RawMessage → M S A))
  account_tools h =
      ("get_subaccount", adapt h.get_subaccount)
      ∷ ("get_live_subaccount", adapt h.get_live_subaccount)
      ∷ ("get_balance", adapt h.get_balance)
      ∷ ("whoami", adapt h.whoami)
      ∷ ("get_orders", adapt h.get_orders)
      ∷ ("get_order", adapt h.get_order)
      ∷ ("get_fills", adapt h.get_fills)
      ∷ ("get_transfers", adapt h.get_transfers)
      ∷ ("get_pnl", adapt h.get_pnl)
      ∷ ("get_historical_pnl", adapt h.get_historical_pnl)
      ∷ ("get_funding_payments", adapt h.get_funding_payments)
      ∷ []

  unfoldable pub register_account : Handlers S A → Registry S A → Result (Registry S A)
  unfolding add_all adapt
  register_account h r = add_all skill_account (account_tools h) r

  abbrev pub trading_tools : Handlers S A → List (String × (RawMessage → M S A))
  trading_tools h =
      ("build_place_limit_order", adapt h.build_place_limit_order)
      ∷ ("build_place_market_order", adapt h.build_place_market_order)
      ∷ ("build_place_conditional_order", adapt h.build_place_conditional_order)
      ∷ ("build_cancel_order", adapt h.build_cancel_order)
      ∷ ("build_batch_cancel_orders", adapt h.build_batch_cancel_orders)
      ∷ []

  unfoldable pub register_trading : Handlers S A → Registry S A → Result (Registry S A)
  unfolding add_all adapt
  register_trading h r = add_all skill_trading (trading_tools h) r

  abbrev pub funds_tools : Handlers S A → List (String × (RawMessage → M S A))
  funds_tools h =
      ("build_deposit_to_subaccount", adapt h.build_deposit_to_subaccount)
      ∷ ("build_withdraw_from_subaccount", adapt h.build_withdraw_from_subaccount)
      ∷ ("build_transfer_between_subaccounts", adapt h.build_transfer_between_subaccounts)
      ∷ ("build_bank_send", adapt h.build_bank_send)
      ∷ ("get_transfer_out_cap", adapt h.get_transfer_out_cap)
      ∷ ("set_transfer_out_cap", adapt h.set_transfer_out_cap)
      ∷ []

  unfoldable pub register_funds : Handlers S A → Registry S A → Result (Registry S A)
  unfolding add_all adapt
  register_funds h r = add_all skill_funds (funds_tools h) r

  abbrev pub broadcast_tools : Handlers S A → List (String × (RawMessage → M S A))
  broadcast_tools h =
      ("broadcast_signed_tx", adapt h.broadcast_signed_tx)
      ∷ ("get_tx_status", adapt h.get_tx_status)
      ∷ []

  unfoldable pub register_broadcast : Handlers S A → Registry S A → Result (Registry S A)
  unfolding add_all adapt
  register_broadcast h r = add_all skill_broadcast (broadcast_tools h) r

  abbrev pub auth_tools : Handlers S A → List (String × (RawMessage → M S A))
  auth_tools h =
      ("auth_challenge", adapt h.auth_challenge) ∷ ("auth_verify", adapt h.auth_verify) ∷ []

  unfoldable pub register_auth : Handlers S A → Registry S A → Result (Registry S A)
  unfolding add_all adapt
  register_auth h r = add_all skill_auth (auth_tools h) r

  abbrev pub faucet_tools : Handlers S A → List (String × (RawMessage → M S A))
  faucet_tools h =
      ("list_faucet_tokens", adapt h.list_faucet_tokens)
      ∷ ("faucet_claim", adapt h.faucet_claim)
      ∷ []

  unfoldable pub register_faucet : Handlers S A → Registry S A → Result (Registry S A)
  unfolding add_all adapt
  register_faucet h r = add_all skill_faucet (faucet_tools h) r

  abbrev pub evm_broadcast_tools : Handlers S A → List (String × (RawMessage → M S A))
  evm_broadcast_tools h =
      ("broadcast_evm_tx", adapt h.broadcast_evm_tx) ∷ ("evm_tx_status", adapt h.evm_tx_status) ∷ []

  unfoldable pub register_evm_broadcast : Handlers S A → Registry S A → Result (Registry S A)
  unfolding add_all adapt
  register_evm_broadcast h r = add_all skill_evm (evm_broadcast_tools h) r

  abbrev pub evm_defi_tools : Handlers S A → List (String × (RawMessage → M S A))
  evm_defi_tools h =
      ("quote_swap", adapt h.quote_swap)
      ∷ ("build_token_approval", adapt h.build_token_approval)
      ∷ ("build_swap", adapt h.build_swap)
      ∷ ("build_bridge_deposit", adapt h.build_bridge_deposit)
      ∷ ("build_bridge_deposit_inbound", adapt h.build_bridge_deposit_inbound)
      ∷ ("build_erc20_transfer", adapt h.build_erc20_transfer)
      ∷ ("build_erc20_approve", adapt h.build_erc20_approve)
      ∷ ("build_erc20_transfer_from", adapt h.build_erc20_transfer_from)
      ∷ ("build_erc721_transfer_from", adapt h.build_erc721_transfer_from)
      ∷ ("build_erc721_safe_transfer_from", adapt h.build_erc721_safe_transfer_from)
      ∷ ("build_erc721_approve", adapt h.build_erc721_approve)
      ∷ ("build_erc721_set_approval_for_all", adapt h.build_erc721_set_approval_for_all)
      ∷ []

  unfoldable pub register_evm_defi : Handlers S A → Registry S A → Result (Registry S A)
  unfolding add_all adapt
  register_evm_defi h r = add_all skill_evm (evm_defi_tools h) r

  unfoldable pub register_evm : Handlers S A → Registry S A → Result (Registry S A)
  unfolding register_evm_broadcast register_evm_defi
  register_evm h r = register_evm_broadcast h r >>= register_evm_defi h

  abbrev pub new_empty : Registry S A
  new_empty = []

  unfoldable pub new : Handlers S A → Result (Registry S A)
  unfolding register_market_data register_account register_trading register_funds register_broadcast
      register_auth register_faucet register_evm
  new h = do
    r0 ← register_market_data h new_empty
    r1 ← register_account h r0
    r2 ← register_trading h r1
    r3 ← register_funds h r2
    r4 ← register_broadcast h r3
    r5 ← register_auth h r4
    r6 ← register_faucet h r5
    register_evm h r6
