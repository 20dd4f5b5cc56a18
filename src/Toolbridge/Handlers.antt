-- ===== src/Toolbridge/Handlers.antt =====
-- The handlers of the MCP library that internal/toolbridge/register.go registers.
use svpchain_research_agent.Toolbridge.{Handler}

-- tools.Handlers, as far as it is bridged.
pub record Handlers (S A : Type 0) : Type 1 where
  pub list_markets : Handler S A
  pub get_market : Handler S A
  pub get_orderbook : Handler S A
  pub get_oracle_price : Handler S A
  pub get_candles : Handler S A
  pub get_trades : Handler S A
  pub get_sparklines : Handler S A
  pub get_historical_funding : Handler S A
  pub get_height : Handler S A
  pub get_time : Handler S A
  pub get_subaccount : Handler S A
  pub get_live_subaccount : Handler S A
  pub get_balance : Handler S A
  pub whoami : Handler S A
  pub get_orders : Handler S A
  pub get_order : Handler S A
  pub get_fills : Handler S A
  pub get_transfers : Handler S A
  pub get_pnl : Handler S A
  pub get_historical_pnl : Handler S A
  pub get_funding_payments : Handler S A
  pub build_place_limit_order : Handler S A
  pub build_place_market_order : Handler S A
  pub build_place_conditional_order : Handler S A
  pub build_cancel_order : Handler S A
  pub build_batch_cancel_orders : Handler S A
  pub build_deposit_to_subaccount : Handler S A
  pub build_withdraw_from_subaccount : Handler S A
  pub build_transfer_between_subaccounts : Handler S A
  pub build_bank_send : Handler S A
  pub get_transfer_out_cap : Handler S A
  pub set_transfer_out_cap : Handler S A
  pub broadcast_signed_tx : Handler S A
  pub get_tx_status : Handler S A
  pub auth_challenge : Handler S A
  pub auth_verify : Handler S A
  pub list_faucet_tokens : Handler S A
  pub faucet_claim : Handler S A
  pub broadcast_evm_tx : Handler S A
  pub evm_tx_status : Handler S A
  pub quote_swap : Handler S A
  pub build_token_approval : Handler S A
  pub build_swap : Handler S A
  pub build_bridge_deposit : Handler S A
  pub build_bridge_deposit_inbound : Handler S A
  pub build_erc20_transfer : Handler S A
  pub build_erc20_approve : Handler S A
  pub build_erc20_transfer_from : Handler S A
  pub build_erc721_transfer_from : Handler S A
  pub build_erc721_safe_transfer_from : Handler S A
  pub build_erc721_approve : Handler S A
  pub build_erc721_set_approval_for_all : Handler S A
