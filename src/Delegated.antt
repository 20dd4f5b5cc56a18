-- ===== src/Delegated.antt =====
-- internal/delegated/service.go: the configuration and the state of the execution service.
-- The chain, the clock, the builder library, the policy engine and the cryptography are the
-- fields of `Deps`; a call of theirs reads and changes the outside world `W`.
pub mod Resolver
pub mod Proof
pub mod Execute
pub mod Identity
pub mod Settlement
pub mod Sequence
pub mod Reads
pub mod ReadTenants
use svpchain_research_agent.Base.{
  ℕ, ℤ, pos, Bool, String, List, [], ◌∷◌, Option, none, Result, ok, Bytes, M,
}
use svpchain_research_agent.Svpdt.{Svpdt}
use svpchain_research_agent.Chain.{SdkCoin, AccountInfo, BroadcastResult}
use svpchain_research_agent.Operator.{FeeSpec, PrivKey, Codec}

-- The agentwallet parameters that bound a credential.
pub record Params : Type 0 where
  pub max_delegation_depth : ℕ
  pub max_token_ttl_seconds : ℕ

pub record RootState : Type 0 where
  pub epoch : ℕ
  pub paused : Bool

pub record AgentRecord : Type 0 where
  pub agent_id : String
  pub public_key : Bytes
  pub status : String
  pub bond : String
  pub endpoint : String
  pub capability_hash : Bytes

pub record TenantContext : Type 0 where
  pub tenant_id : String
  pub owner : String

pub record TenantPolicy : Type 0 where
  pub tenant_id : String
  pub owner : String
  pub allowed_subaccounts : List ℕ

pub record Claimable : Type 0 where
  pub agent_id : String
  pub amount : SdkCoin

pub record SettlementOrder : Type 0 where
  pub id : Bytes
  pub opener : String
  pub status : String
  pub cap : SdkCoin
  pub total_recorded : SdkCoin
  pub total_claimed : SdkCoin
  pub refunded : SdkCoin
  pub root_delegation_id : Bytes
  pub memo : String

pub record SettlementQuerier (W : Type 0) : Type 0 where
  pub settlement : Bytes → M W SettlementOrder
  pub claimables_by_settlement : Bytes → M W (List Claimable)

-- builder.Assembler
pub record Assembler : Type 0 where
  pub chain_id : String
  pub denom : String
  pub amount : String
  pub gas_limit : ℕ

-- The inputs of the builder library's functions.
pub record PlaceLimitOrderInput : Type 0 where
  pub owner : String
  pub subaccount_num : ℕ
  pub ticker : String
  pub side : String
  pub human_size : String
  pub human_price : String
  pub time_in_force : String
  pub reduce_only : Bool
  pub good_til_block : ℕ
  pub order_client_id : ℕ

pub record CancelOrderInput : Type 0 where
  pub owner : String
  pub subaccount_num : ℕ
  pub clob_pair_id : ℕ
  pub order_client_id : ℕ
  pub order_flags : ℕ
  pub good_til_block : ℕ
  pub good_til_block_time : ℕ

pub record OrderBatchInput : Type 0 where
  pub clob_pair_id : ℕ
  pub client_ids : List ℕ

pub record BatchCancelOrdersInput : Type 0 where
  pub owner : String
  pub subaccount_num : ℕ
  pub batches : List OrderBatchInput
  pub good_til_block : ℕ

pub record DepositToSubaccountInput : Type 0 where
  pub owner : String
  pub subaccount_num : ℕ
  pub human_usdc : String

pub record Builder (W X : Type 0) : Type 0 where
  pub place_limit_order : PlaceLimitOrderInput → Assembler → M W X
  pub cancel_order : CancelOrderInput → Assembler → M W X
  pub batch_cancel_orders : BatchCancelOrdersInput → Assembler → M W X
  pub deposit_to_subaccount : DepositToSubaccountInput → Assembler → M W X

-- delegated.Config, with the package functions that the service calls.
pub record Deps (W O X : Type 0) : Type 0 where
  pub priv : PrivKey
  pub operator : String
  pub chain_id : String
  pub fee : FeeSpec
  pub endpoint : String
  pub capabilities : List String
  pub metadata : String
  pub dt : Svpdt W O
  pub codec : Codec X
  pub builder : Builder W X
  pub now : W → ℤ × W
  pub query_agent : String → M W (Option AgentRecord)
  pub agent_by_operator : String → M W (Option AgentRecord)
  pub min_bond : M W SdkCoin
  pub auth_q : Option (String → M W Bytes)
  pub wallet_params : M W Params
  pub query_epoch : Bytes → M W RootState
  pub settlement_q : Option (SettlementQuerier W)
  pub parse_settlement_id : String → Result Bytes
  pub account : String → M W AccountInfo
  pub broadcast_sync : Bytes → M W BroadcastResult
  pub policy_tenant : String → M W TenantPolicy
  pub human_to_quantums : String → Result ℕ
  pub check_deposit : ℕ → Result (Unit {0})
  pub agent_id_from_operator : String → String
  pub did_prefix : String
  pub sha256 : Bytes → Bytes
  pub hex_root_id : Bytes → String
  pub settlement_id_to_caveat : Bytes → String
  pub int_string : ℤ → String

pub record EpochEntry : Type 0 where
  pub epoch : ℕ
  pub paused : Bool
  pub fetched : ℤ

-- delegated.Service. `sent` is no field of the source: it lists the transactions that were handed
-- to BroadcastSync, newest first.
pub record Service (W : Type 0) : Type 0 where
  pub world : W
  pub card_hash : Bytes
  pub cached_params : Option Params
  pub params_fetched : ℤ
  pub params_cache_ttl : ℤ
  pub epoch_cache : List (Bytes × EpochEntry)
  pub epoch_cache_ttl : ℤ
  pub sent : List Bytes

unfoldable pub new : {W : Type 0} → W → Service W
new world = record {
  world = world;
  card_hash = [];
  cached_params = none;
  params_fetched = pos 0;
  params_cache_ttl = pos 60;
  epoch_cache = [];
  epoch_cache_ttl = pos 10;
  sent = [];
}

-- An answer of the outside world, with the service's own fields left alone.
abbrev pub answered : {W A : Type 0} → Service W → Result A × W → Result A × Service W
answered s (r, w) = (r, record s { world = w })

abbrev pub ask : {W A : Type 0} → M W A → M (Service W) A
ask m s = answered s (m s.world)

module _ {W O X : Type 0} (d : Deps W O X) where
  abbrev pub agent_id : String
  agent_id = d.agent_id_from_operator d.operator

  abbrev pub told : Service W → ℤ × W → Result ℤ × Service W
  told s (t, w) = (ok t, record s { world = w })

  -- s.now()
  abbrev pub clock : M (Service W) ℤ
  clock s = told s (d.now s.world)

  -- Hands a transaction to the chain, and notes that it did.
  abbrev pub send : Bytes → M (Service W) BroadcastResult
  send raw s = ask (d.broadcast_sync raw) (record s { sent = raw ∷ s.sent })
