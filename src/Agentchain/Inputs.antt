-- ===== src/Agentchain/Inputs.antt =====
-- internal/agentchain/txbuild.go: what a caller asks the build operations for, and the prices,
-- limits and hashes in it, read.
use svpchain_research_agent.Base.{
  ℕ, ℤ, String, List, [], Option, none, some, Result, ok, wrap, external, Bytes, ◌==◌, string_eq,
  if◌then◌else◌,
}
use svpchain_research_agent.Base.Hex.{decode_string}
use svpchain_research_agent.Base.Results.{◌>>=◌, map_err, or_fail}
use svpchain_research_agent.Chain.{SdkCoin}
use svpchain_research_agent.Agentchain.{PricingTerms, LimitTerms, Summary}
use svpchain_research_agent.Agentchain.Coin.{Coin, coins_to_sdk}

pub record Pricing : Type 0 where
  pub per_call : List Coin
  pub unit : String

pub record BuildRegisterAgentInput : Type 0 where
  pub operator : String
  pub public_key_b64 : String
  pub endpoint : String
  pub capability_hash : String
  pub capabilities : List String
  pub pricing : Option Pricing
  pub initial_bond : Coin
  pub metadata : String
  pub payload_client_id : String

pub record BuildUpdateAgentInput : Type 0 where
  pub agent_id : String
  pub endpoint : String
  pub capability_hash : String
  pub capabilities : List String
  pub pricing : Option Pricing
  pub metadata : String
  pub payload_client_id : String

pub record BuildBondInput : Type 0 where
  pub agent_id : String
  pub amount : Coin
  pub payload_client_id : String

pub record BuildDeregisterAgentInput : Type 0 where
  pub agent_id : String
  pub payload_client_id : String

pub record Limits : Type 0 where
  pub spend_limit_total : List Coin
  pub spend_limit_daily : List Coin
  pub svc_spend_limit_total : List Coin
  pub svc_spend_limit_daily : List Coin
  pub denoms : List String
  pub actions : List String
  pub skills : List String
  pub contracts : List String
  pub subaccounts : List ℕ
  pub max_depth : ℕ
  pub max_token_ttl_seconds : ℕ

pub record BuildCreateDelegationInput : Type 0 where
  pub agent_id : String
  pub limits : Limits
  pub expires_at : ℤ
  pub payload_client_id : String

pub record BuildUpdateDelegationInput : Type 0 where
  pub root_id : String
  pub limits : Limits
  pub expires_at : ℤ
  pub payload_client_id : String

pub record BuildDelegationRefInput : Type 0 where
  pub root_id : String
  pub payload_client_id : String

pub record BuildRevokeTokenInput : Type 0 where
  pub root_id : String
  pub token_hash : String
  pub payload_client_id : String

abbrev pub no_summary : Summary
no_summary = record { tool_name = ""; msg_type_url = ""; amount_human = ""; denom = "" }

abbrev pub amount_summary : Coin → Summary
amount_summary c = record {
  tool_name = "";
  msg_type_url = "";
  amount_human = c.amount;
  denom = c.denom;
}

-- An empty text is no hash.
unfoldable pub optional_hash : String → Result Bytes
optional_hash s =
    if s == ""
    then ok []
    else map_err (wrap "capability_hash_hex: %w" [])
        (or_fail (decode_string s) (external "encoding/hex"))

module _ (int_from_string : String → Option ℤ) where
  unfoldable pub pricing_terms : Option Pricing → Result (Option PricingTerms)
  pricing_terms none = ok none
  pricing_terms (some p) =
      map_err (wrap "pricing: %w" []) (coins_to_sdk int_from_string p.per_call) >>= λ coins.
      ok (some (record { per_call = coins; unit = p.unit }))

  abbrev pub named_coins : String → List Coin → Result (List SdkCoin)
  named_coins name cs = map_err (wrap name []) (coins_to_sdk int_from_string cs)

  unfoldable pub limit_terms : Limits → Result LimitTerms
  limit_terms l = do
    total ← named_coins "spend_limit_total: %w" l.spend_limit_total
    daily ← named_coins "spend_limit_daily: %w" l.spend_limit_daily
    svc_total ← named_coins "svc_spend_limit_total: %w" l.svc_spend_limit_total
    svc_daily ← named_coins "svc_spend_limit_daily: %w" l.svc_spend_limit_daily
    ok (record {
      spend_limit_total = total;
      spend_limit_daily = daily;
      svc_spend_limit_total = svc_total;
      svc_spend_limit_daily = svc_daily;
      denoms = l.denoms;
      actions = l.actions;
      skills = l.skills;
      contracts = l.contracts;
      subaccounts = l.subaccounts;
      max_depth = l.max_depth;
      max_token_ttl_seconds = l.max_token_ttl_seconds;
    })
