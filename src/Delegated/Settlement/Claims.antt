-- ===== src/Delegated/Settlement/Claims.antt =====
-- What a claim may hand to the chain, and what it shows.
use svpchain_research_agent.Base.{
  ◌≡◌, refl, inl, inr, String, [], Option, none, some, ok, Bytes, M, arith, wrap,
}
use svpchain_research_agent.Base.Results.{Result-cases, map_err}
use svpchain_research_agent.Base.State.{◌>>=◌, ◌>>◌, lift, pure}
use svpchain_research_agent.Chain.{Msg}
use svpchain_research_agent.Delegated.{Deps, Service, TenantContext, SettlementQuerier}
use svpchain_research_agent.Delegated.Identity.{require_operator}
use svpchain_research_agent.Delegated.Identity.Gate.{LandsOwn, LandsOwn-map, run_own, run_own-Lands}
use svpchain_research_agent.Delegated.Settlement.{peek_claimable, claim_message, claim_earnings}

abbrev claim_reason : String
claim_reason = "a claim withdraws this agent's earnings and"

module _ {W O X : Type 0} (d : Deps W O X) where
  prepare_claim : String → M (Service W) (Msg X)
  prepare_claim settlement_id = do
    id ← lift (map_err (wrap "settlement_id: %w" []) (d.parse_settlement_id settlement_id))
    claimable ← peek_claimable d d.settlement_q id
    lift (d.codec.validate_basic (claim_message d id))
    pure (claim_message d id)

  peek_claimable-kept :
      (q : Option (SettlementQuerier W)) (id : Bytes) (s : Service W)
      → (peek_claimable d q id s).1.sent ≡ s.sent
  unfolding peek_claimable
  peek_claimable-kept none id s = refl
  peek_claimable-kept (some q) id s = refl

  -- The peek never fails.
  peek_claimable-total :
      (q : Option (SettlementQuerier W)) (id : Bytes) (s : Service W)
      → (c : Option _) × ((peek_claimable d q id s).0 ≡ ok c)
  unfolding peek_claimable
  peek_claimable-total none id s = (none, refl)
  peek_claimable-total (some q) id s = (_, refl)

  prepare_claim-sent : (id : String) (s : Service W) → (prepare_claim id s).1.sent ≡ s.sent
  unfolding prepare_claim
  prepare_claim-sent settlement_id s = elim (Result-cases (d.parse_settlement_id settlement_id)) [
    | inr (e, q) ↦ ground arith
    | inl (id, q) ↦ ground (arith, peek_claimable-kept d.settlement_q id s)
  ]

  prepare_claim-eq :
      (settlement_id : String) (s : Service W) (msg : Msg X)
      → (prepare_claim settlement_id s).0 ≡ ok msg
      → (id : Bytes) × (d.parse_settlement_id settlement_id ≡ ok id) × (msg ≡ claim_message d id)
  unfolding prepare_claim
  prepare_claim-eq settlement_id s msg h =
      elim (Result-cases (d.parse_settlement_id settlement_id)) [
        | inr (e, q) ↦ absurd (ground arith)
        | inl (id, q) ↦ (id, q, ground (arith, peek_claimable-total d.settlement_q id s))
      ]

  claim_shape :
      (s : Service W) (tenant : Option TenantContext) (settlement_id : String)
      → (claim_earnings d tenant settlement_id s).1
        ≡ (run_own d tenant claim_reason (prepare_claim settlement_id) s).1
  unfolding claim_earnings prepare_claim
  claim_shape s tenant settlement_id = ground arith

  -- In whatever way it ends, a claim hands to the chain either nothing, or exactly one fee-paying
  -- transaction under the operator's key, and then only for an authenticated caller whom the policy
  -- engine names as the operator: the claim of this agent on the order that the given id parses to.
  pub claim_earnings-Lands :
      (s : Service W) (tenant : Option TenantContext) (settlement_id : String)
      → LandsOwn d tenant
          (λ msg.
            (id : Bytes) × (d.parse_settlement_id settlement_id ≡ ok id)
            × (msg ≡ claim_message d id))
          s
          (claim_earnings d tenant settlement_id s).1
  claim_earnings-Lands s tenant settlement_id = rw (claim_shape s tenant settlement_id) (
      LandsOwn-map d tenant s (run_own d tenant claim_reason (prepare_claim settlement_id) s).1
        (prepare_claim-eq settlement_id (require_operator d tenant claim_reason s).1)
        (run_own-Lands d (prepare_claim settlement_id) (prepare_claim-sent settlement_id) s tenant
          claim_reason))
