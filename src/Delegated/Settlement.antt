-- ===== src/Delegated/Settlement.antt =====
-- internal/delegated/settlement.go: how the agent records what it is owed, and claims it.
pub mod Spend
pub mod Claims
use svpchain_research_agent.Base.{
  Bool, not, String, List, [], ◌∷◌, map, Option, none, some, Result, ok, err, errorf, wrap, str,
  Bytes, M, ◌==◌, string_eq, null, if◌then◌else◌,
}
use svpchain_research_agent.Base.Results.{map_err}
use svpchain_research_agent.Base.State.{◌>>=◌, ◌>>◌, lift, check, pure, throw}
use svpchain_research_agent.Svpdt.{Verified}
use svpchain_research_agent.Chain.{Msg, SdkCoin, record_spend, claim}
use svpchain_research_agent.Agentchain.Coin.{Coin, to_sdk}
use svpchain_research_agent.Delegated.{
  Deps, Service, TenantContext, SettlementQuerier, SettlementOrder, Claimable, ask, agent_id,
}
use svpchain_research_agent.Delegated.Proof.{verify_proof, preflight}
use svpchain_research_agent.Delegated.Execute.{ExecResult, execute}
use svpchain_research_agent.Delegated.Identity.{require_operator, sign_and_broadcast_own}

abbrev pub action_record_spend : String
action_record_spend = "settlement.record_spend"

pub record RecordSpendParams : Type 0 where
  pub settlement_id : String
  pub amount : Coin

pub record ExecRecordSpendInput : Type 0 where
  pub proof : List String
  pub spend : RecordSpendParams

pub record ClaimOutput : Type 0 where
  pub result : ExecResult
  pub claimable : Option Coin

pub record ClaimableView : Type 0 where
  pub agent_id : String
  pub amount : Coin

pub record SettlementView : Type 0 where
  pub settlement_id : String
  pub opener : String
  pub status : String
  pub cap : Coin
  pub total_recorded : Coin
  pub total_claimed : Coin
  pub refunded : Coin
  pub root_delegation_id : String
  pub memo : String
  pub claimables : List ClaimableView

module _ {W O X : Type 0} (d : Deps W O X) where
  abbrev pub spend_message : Verified O → Bytes → SdkCoin → Msg X
  spend_message verified id amount = record_spend (record {
    principal = verified.principal;
    settlement_id = id;
    agent_id = agent_id d;
    amount = amount;
  })

  -- An id that the caller leaves out is the credential's.
  abbrev pub named_order : RecordSpendParams → String → String
  named_order spend bound = if spend.settlement_id == "" then bound else spend.settlement_id

  -- The message of a spend, or why there is none.
  spend_of : Verified O → RecordSpendParams → M (Service W) (Msg X)
  spend_of verified spend = do
    let bound = verified.effective.settlement
    check (not (bound == "")) (
        errorf
          "credential has no settlement binding: mint the task credential with a settlement caveat naming the escrow order to be charged"
          [])
    check (named_order spend bound == bound) (
        errorf "record names settlement %s but the credential is bound to %s"
          (str (named_order spend bound) ∷ str bound ∷ []))
    id ←
        lift
          (map_err (wrap "settlement_id: %w" []) (d.parse_settlement_id (named_order spend bound)))
    amount ← lift (map_err (wrap "amount: %w" []) (to_sdk d.codec.int_from_string spend.amount))
    lift (d.codec.validate_basic (spend_message verified id amount))
    pure (spend_message verified id amount)

  unfoldable pub execute_record_spend : ExecRecordSpendInput → M (Service W) ExecResult
  unfolding spend_of
  execute_record_spend req = do
    (tokens, verified) ← verify_proof d req.proof
    lift (preflight d.dt verified action_record_spend 0)
    inner ← spend_of verified req.spend
    execute d tokens verified inner

  unfoldable pub coin_view : SdkCoin → Coin
  coin_view c = record { denom = c.denom; amount = d.int_string c.amount }

  -- The loop keeps the last entry of this agent.
  own_claimable : Option Coin → List Claimable → Option Coin
  unfolding coin_view
  own_claimable found [] = found
  own_claimable found (c ∷ cs) =
      own_claimable (if c.agent_id == agent_id d then some (coin_view c.amount) else found) cs

  peeked : Result (List Claimable) → Option Coin
  unfolding own_claimable
  peeked (ok cs) = own_claimable none cs
  peeked (err e) = none

  -- What the order's books show; a failed query shows nothing.
  peek_claimable : Option (SettlementQuerier W) → Bytes → M (Service W) (Option Coin)
  unfolding peeked
  peek_claimable none id s = (ok none, s)
  peek_claimable (some q) id s =
      let (r, s') = ask (q.claimables_by_settlement id) s in (ok (peeked r), s')

  abbrev pub claim_message : Bytes → Msg X
  claim_message id =
      claim (record { claimer = d.operator; settlement_id = id; agent_id = agent_id d })

  unfoldable pub claim_earnings : Option TenantContext → String → M (Service W) ClaimOutput
  unfolding peek_claimable
  claim_earnings tenant settlement_id = do
    require_operator d tenant "a claim withdraws this agent's earnings and"
    id ← lift (map_err (wrap "settlement_id: %w" []) (d.parse_settlement_id settlement_id))
    claimable ← peek_claimable d.settlement_q id
    lift (d.codec.validate_basic (claim_message id))
    res ← sign_and_broadcast_own d (claim_message id)
    pure (record { result = res; claimable = claimable })

  claimable_view : Claimable → ClaimableView
  unfolding coin_view
  claimable_view c = record { agent_id = c.agent_id; amount = coin_view c.amount }

  settlement_view : SettlementOrder → List Claimable → SettlementView
  unfolding claimable_view
  settlement_view order claims = record {
    settlement_id = d.settlement_id_to_caveat order.id;
    opener = order.opener;
    status = order.status;
    cap = coin_view order.cap;
    total_recorded = coin_view order.total_recorded;
    total_claimed = coin_view order.total_claimed;
    refunded = coin_view order.refunded;
    root_delegation_id =
        if null order.root_delegation_id then "" else d.hex_root_id order.root_delegation_id;
    memo = order.memo;
    claimables = map claimable_view claims;
  }

  read_settlement : Option (SettlementQuerier W) → String → M (Service W) SettlementView
  read_settlement none settlement_id =
      throw (errorf "this deployment has no settlement query endpoint configured" [])
  read_settlement (some q) settlement_id = do
    id ← lift (map_err (wrap "settlement_id: %w" []) (d.parse_settlement_id settlement_id))
    order ← ask (q.settlement id)
    claims ← ask (q.claimables_by_settlement id)
    pure (settlement_view order claims)

  unfoldable pub get_settlement : String → M (Service W) SettlementView
  unfolding read_settlement settlement_view
  get_settlement settlement_id = read_settlement d.settlement_q settlement_id
