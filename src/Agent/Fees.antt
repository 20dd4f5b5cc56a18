-- ===== src/Agent/Fees.antt =====
-- cmd/svpchain-research-agent/main.go: the transactions that the agent itself lands for a task.
use svpchain_research_agent.Base.{
  ◌≡◌, refl, ap, ◌∙◌, ◌⊎◌, inl, inr, List, ◌∷◌, Option, none, some, Bytes, arith,
}
use svpchain_research_agent.Base.Results.{Result-cases}
use svpchain_research_agent.Chain.{Msg}
use svpchain_research_agent.Agentchain.Coin.{Coin}
use svpchain_research_agent.Delegated.{Deps, Service}
use svpchain_research_agent.Delegated.Proof.{verify_inbound}
use svpchain_research_agent.Delegated.Proof.Soundness.{verify_proof-sent}
use svpchain_research_agent.Delegated.Execute.Landing.{Lands}
use svpchain_research_agent.Delegated.Settlement.{execute_record_spend}
use svpchain_research_agent.Delegated.Settlement.Spend.{IsSpend, execute_record_spend-Lands}
use svpchain_research_agent.Intermediary.{Config, ForwardInput, admit, charge, mint, forward}
use svpchain_research_agent.Intermediary.Still.{IsStill, log-admit, log-mint}
use svpchain_research_agent.Intermediary.Log.{fee_request, charge-none, charge-state}
use svpchain_research_agent.Agent.{Peer, intermediary_config}

module _ {W O X : Type 0} (d : Deps W O X) (peer : Peer W) where
  abbrev agent : Config (Service W) O
  agent = intermediary_config d peer

  abbrev sent : Service W → List Bytes
  sent s = s.sent

  asking-IsStill : IsStill agent sent
  unfolding intermediary_config verify_inbound
  asking-IsStill = record {
    verify_still = λ p s. verify_proof-sent d s p;
    now_still = λ s. refl;
    nonce_still = λ s. refl;
    attenuate_still = λ a s. refl;
  }

  -- The steps beside the charge hand nothing to the chain.
  forward-sent :
      (s : Service W) (req : ForwardInput)
      → ((forward agent req s).1.sent ≡ s.sent)
        ⊎ ((forward agent req s).1.sent
            ≡ (charge agent req.proof req.fee (admit agent req s).1).1.sent)
  unfolding forward intermediary_config
  forward-sent s req =
      let s₁ = (admit agent req s).1 in
      let s₂ = (charge agent req.proof req.fee s₁).1 in
      let first = log-admit agent sent asking-IsStill req s in
      elim (Result-cases (admit agent req s).0) [
        | inr (e, q) ↦ inl (ground arith)
        | inl ((ts, v, l), q) ↦ elim (Result-cases (charge agent req.proof req.fee s₁).0) [
          | inr (e, r) ↦ inr (ground arith)
          | inl (c, r) ↦
              let still = log-mint agent sent asking-IsStill req ts l s₂ in
              elim (Result-cases (mint agent req ts l s₂).0) [
                | inr (e, t) ↦ inr (ground arith)
                | inl ((child, b), t) ↦ inr (ground arith)
              ]
        ]
      ]

  abbrev MayPay : ForwardInput → Service W → Coin → List Bytes → Msg X → Type 0
  MayPay req s fee = IsSpend d (admit agent req s).1 (fee_request req.proof fee)

  -- What a task lands: nothing without a fee, and with one the spend of that fee at most.
  abbrev pub LandsFee : ForwardInput → Option Coin → Service W → Service W → Type 0
  LandsFee req none s s' = s'.sent ≡ s.sent
  LandsFee req (some fee) s s' = Lands d (MayPay req s fee) s s'

  Lands-sent :
      (May : List Bytes → Msg X → Type 0) (s s' t t' : Service W)
      → s.sent ≡ t.sent
      → t'.sent ≡ s'.sent
      → Lands d May s s'
      → Lands d May t t'
  Lands-sent May s s' t t' p q (inl quiet) = inl (q ∙ quiet ∙ p)
  Lands-sent May s s' t t' p q (inr (tokens, inner, raw, may, wrapped, one)) =
      inr (tokens, inner, raw, may, wrapped, q ∙ one ∙ ap (λ l. raw ∷ l) p)

  charge-LandsFee :
      (req : ForwardInput) (fee : Option Coin) (s : Service W)
      → LandsFee req fee s (charge agent req.proof fee (admit agent req s).1).1
  unfolding intermediary_config
  charge-LandsFee req none s =
      ap sent (charge-none agent req.proof (admit agent req s).1)
      ∙ log-admit agent sent asking-IsStill req s
  charge-LandsFee req (some fee) s =
      let s₁ = (admit agent req s).1 in
      let r = fee_request req.proof fee in
      Lands-sent (MayPay req s fee) s₁ (execute_record_spend d r s₁).1 s
        (charge agent req.proof (some fee) s₁).1 (log-admit agent sent asking-IsStill req s)
        (ap sent (charge-state agent (execute_record_spend d) req.proof fee s₁ refl))
        (execute_record_spend-Lands d s₁ r)

  -- With nothing handed over since, what a state lands is what the one before it did.
  LandsFee-later :
      (req : ForwardInput) (fee : Option Coin) (s s' t : Service W)
      → t.sent ≡ s'.sent
      → LandsFee req fee s s'
      → LandsFee req fee s t
  LandsFee-later req none s s' t q h = q ∙ h
  LandsFee-later req (some fee) s s' t q h = Lands-sent (MayPay req s fee) s s' s t refl q h

  LandsFee-nothing :
      (req : ForwardInput) (fee : Option Coin) (s t : Service W)
      → t.sent ≡ s.sent
      → LandsFee req fee s t
  LandsFee-nothing req none s t q = q
  LandsFee-nothing req (some fee) s t q = inl q

  -- On the service that the binary builds, a forwarding task hands at most one transaction of its
  -- own to the chain, and only where it has a fee: the spend of that fee, under the operator's key,
  -- for the proof that the task came with, on the account and the order of its credential.
  pub forward-LandsFee :
      (s : Service W) (req : ForwardInput) → LandsFee req req.fee s (forward agent req s).1
  forward-LandsFee s req = elim (forward-sent s req) [
    | inl nothing ↦ LandsFee-nothing req req.fee s (forward agent req s).1 nothing
    | inr charged ↦
        LandsFee-later req req.fee s (charge agent req.proof req.fee (admit agent req s).1).1
          (forward agent req s).1 charged (charge-LandsFee req req.fee s)
  ]
