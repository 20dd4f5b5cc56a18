-- ===== src/Chain.antt =====
-- What the program exchanges with the chain: coins, messages, accounts, broadcast results.
-- The message and account types are those of packages outside the repository, cut to the fields
-- that the program fills or reads; `X` stands for the messages that the builder library makes.
use svpchain_research_agent.Base.{ℕ, ℤ, String, List, Bytes}

-- sdk.Coin
pub record SdkCoin : Type 0 where
  pub denom : String
  pub amount : ℤ

pub record AccountInfo : Type 0 where
  pub account_number : ℕ
  pub sequence : ℕ

pub record BroadcastResult : Type 0 where
  pub tx_hash : String
  pub code : ℕ
  pub raw_log : String

pub record RegisterAgent : Type 0 where
  pub owner : String
  pub agent_id : String
  pub operator : String
  pub public_key : Bytes
  pub endpoint : String
  pub capability_hash : Bytes
  pub capabilities : List String
  pub initial_bond : SdkCoin
  pub metadata : String

pub record UpdateAgent : Type 0 where
  pub owner : String
  pub agent_id : String
  pub endpoint : String
  pub capability_hash : Bytes
  pub capabilities : List String
  pub metadata : String

pub record RecordSpend : Type 0 where
  pub principal : String
  pub settlement_id : Bytes
  pub agent_id : String
  pub amount : SdkCoin

pub record ClaimMsg : Type 0 where
  pub claimer : String
  pub settlement_id : Bytes
  pub agent_id : String

-- sdk.Msg. The wrapper carries the message that its Any packs.
pub data Msg (X : Type 0) : Type 0 where
  built : X → Msg X
  register_agent : RegisterAgent → Msg X
  update_agent : UpdateAgent → Msg X
  record_spend : RecordSpend → Msg X
  claim : ClaimMsg → Msg X
  exec_delegated :
      (executor : String) (agent_id : String) (tokens : List Bytes) (inner : Msg X) → Msg X
