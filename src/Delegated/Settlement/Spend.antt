-- ===== src/Delegated/Settlement/Spend.antt =====
-- What recording a spend may hand to the chain.
use svpchain_research_agent.Base.{
  ◌≡◌, ◌⊎◌, ◌≢◌, inl, inr, List, ok, Bytes, arith, string_eq, eq_iff,
}
use svpchain_research_agent.Base.Results.{Result-cases}
use svpchain_research_agent.Svpdt.{Verified}
use svpchain_research_agent.Chain.{Msg, SdkCoin}
use svpchain_research_agent.Agentchain.Coin.{to_sdk}
use svpchain_research_agent.Delegated.{Deps, Service}
use svpchain_research_agent.Delegated.Execute.Landing.{Lands, Lands-map}
use svpchain_research_agent.Delegated.Execute.Granted.{IsGranted, IsPrepared, run_op, run_op-Lands}
use svpchain_research_agent.Delegated.Settlement.{
  RecordSpendParams, ExecRecordSpendInput, action_record_spend, spend_message, named_order,
  spend_of, execute_record_spend,
}

module _ {W O X : Type 0} (d : Deps W O X) where
  -- A spend of this agent's, on the account and the order of the credential and on no other.
  pub record IsSpend (s : Service W) (req : ExecRecordSpendInput) (tokens : List Bytes)
      (inner : Msg X) : Type 0 where
    pub grant : Verified O
    pub granted : IsGranted d s req.proof action_record_spend 0 tokens grant
    pub is_bound : grant.effective.settlement ≢ ""
    pub same_order :
        (req.spend.settlement_id ≡ "") ⊎ (req.spend.settlement_id ≡ grant.effective.settlement)
    pub order : Bytes
    pub is_order : d.parse_settlement_id grant.effective.settlement ≡ ok order
    pub amount : SdkCoin
    pub is_amount : to_sdk d.codec.int_from_string req.spend.amount ≡ ok amount
    pub message : inner ≡ spend_message d grant order amount

  module _ (s : Service W) (v : Verified O) (spend : RecordSpendParams) where
    spend_of-sent : (spend_of d v spend s).1.sent ≡ s.sent
    unfolding spend_of
    spend_of-sent = ground arith

    spend_of-bound :
        (inner : Msg X) → (spend_of d v spend s).0 ≡ ok inner → v.effective.settlement ≢ ""
    unfolding spend_of
    spend_of-bound inner h = ground (arith, eq_iff v.effective.settlement "")

    spend_of-named :
        (inner : Msg X)
        → (spend_of d v spend s).0 ≡ ok inner
        → named_order d spend v.effective.settlement ≡ v.effective.settlement
    unfolding spend_of
    spend_of-named inner h =
        ground (arith, eq_iff (named_order d spend v.effective.settlement) v.effective.settlement)

    same_order_of :
        named_order d spend v.effective.settlement ≡ v.effective.settlement
        → (spend.settlement_id ≡ "") ⊎ (spend.settlement_id ≡ v.effective.settlement)
    same_order_of h = ground (arith, eq_iff spend.settlement_id "")

  spend_of-IsSpend :
      (s : Service W) (req : ExecRecordSpendInput) (tokens : List Bytes) (inner : Msg X)
      → IsPrepared d s req.proof action_record_spend 0 (λ v. spend_of d v req.spend) tokens inner
      → IsSpend s req tokens inner
  unfolding spend_of
  spend_of-IsSpend s req tokens inner p =
      let v = p.grant in
      let named = spend_of-named p.state v req.spend inner p.prepared in
      elim (Result-cases (d.parse_settlement_id (named_order d req.spend v.effective.settlement))) [
        | inr (e, q) ↦ absurd (ground (arith, p.prepared))
        | inl (order, q) ↦ elim (Result-cases (to_sdk d.codec.int_from_string req.spend.amount)) [
          | inr (e, r) ↦ absurd (ground (arith, p.prepared))
          | inl (amount, r) ↦ record {
            grant = v;
            granted = p.granted;
            is_bound = spend_of-bound p.state v req.spend inner p.prepared;
            same_order = same_order_of p.state v req.spend named;
            order = order;
            is_order = rw named at q;
            amount = amount;
            is_amount = r;
            message = ground (arith, p.prepared);
          }
        ]
      ]

  -- In whatever way it ends, recording a spend hands to the chain either nothing, or exactly one
  -- signed wrapper of a spend message: under a verified chain that grants settlement.record_spend
  -- on subaccount 0 and carries a settlement binding, for the credential's principal, this agent,
  -- the requested amount and the bound order, which is the one that the request names or leaves
  -- out.
  pub execute_record_spend-Lands :
      (s : Service W) (req : ExecRecordSpendInput)
      → Lands d (IsSpend s req) s (execute_record_spend d req s).1
  unfolding execute_record_spend
  execute_record_spend-Lands s req =
      Lands-map d s (run_op d req.proof action_record_spend 0 (λ v. spend_of d v req.spend) s).1
        (spend_of-IsSpend s req)
        (run_op-Lands d (λ v. spend_of d v req.spend) (λ v s₁. spend_of-sent s₁ v req.spend) s
          req.proof action_record_spend 0)
