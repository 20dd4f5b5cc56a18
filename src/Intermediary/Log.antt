-- ===== src/Intermediary/Log.antt =====
-- The calls that leave the process, in their order: the charge makes one of them.
use svpchain_research_agent.Base.{
  ◌≡◌, refl, ◌⊎◌, inl, inr, String, List, [], ◌∷◌, Option, none, some, Result, ok, err, Bytes, M,
  arith, Error, wrap,
}
use svpchain_research_agent.Base.Results.{Result-cases}
use svpchain_research_agent.Agentchain.Coin.{Coin}
use svpchain_research_agent.Delegated.Execute.{ExecResult}
use svpchain_research_agent.Delegated.Settlement.{ExecRecordSpendInput}
use svpchain_research_agent.Intermediary.Still.{IsStill}
use svpchain_research_agent.Intermediary.{Config, charge, charge_with}

-- What leaves the process: a spend handed to the recorder, a task handed to a downstream agent.
pub data Event : Type 0 where
  charged : ExecRecordSpendInput → Event
  forwarded : (endpoint : String) (envelope : Bytes) (tokens : List String) → Event

abbrev pub fee_request : List String → Coin → ExecRecordSpendInput
fee_request proof fee = record {
  proof = proof;
  spend = record { settlement_id = ""; amount = fee };
}

-- A log, newest first, of those calls and of nothing else, which the traced agent keeps.
pub record IsLog {S O : Type 0} (cfg : Config S O) (log : S → List Event) : Type 0 where
  pub still : IsStill cfg log
  pub send_logs :
      (e : String) (b : Bytes) (ts : List String) (s : S)
      → log (cfg.send e b ts s).1 ≡ forwarded e b ts ∷ log s
  pub spend_logs :
      (spend : ExecRecordSpendInput → M S ExecResult) (r : ExecRecordSpendInput) (s : S)
      → cfg.spend ≡ some spend
      → log (spend r s).1 ≡ charged r ∷ log s

-- A log once a fee, if there is one, has been handed to the recorder.
abbrev pub paid : List String → Option Coin → List Event → List Event
paid proof none l = l
paid proof (some fee) l = charged (fee_request proof fee) ∷ l

module _ {S O : Type 0} (cfg : Config S O) where
  -- A charge without a fee changes nothing, and one with a fee what its recorder changes.
  pub charge-none : (proof : List String) (s : S) → (charge cfg proof none s).1 ≡ s
  unfolding charge charge_with
  charge-none proof s = refl

  charge_with-state :
      (given : Option (ExecRecordSpendInput → M S ExecResult))
      (recorder : ExecRecordSpendInput → M S ExecResult) (proof : List String) (fee : Coin) (s : S)
      → given ≡ some recorder
      → (charge_with cfg given proof (some fee) s).1 ≡ (recorder (fee_request proof fee) s).1
  unfolding charge_with
  charge_with-state given recorder proof fee s q =
      rw q (elim (Result-cases (recorder (fee_request proof fee) s).0) [
        | inr (e, r) ↦ ground arith
        | inl (a, r) ↦ ground arith
      ])

  pub charge-state :
      (recorder : ExecRecordSpendInput → M S ExecResult) (proof : List String) (fee : Coin) (s : S)
      → cfg.spend ≡ some recorder
      → (charge cfg proof (some fee) s).1 ≡ (recorder (fee_request proof fee) s).1
  unfolding charge
  charge-state recorder proof fee s q = charge_with-state cfg.spend recorder proof fee s q

  module _ (log : S → List Event) (quiet : IsLog cfg log) where
    -- Whatever becomes of the charge, at most the fee is on the log; after a success it is.
    abbrev pub IsCharge : List String → Option Coin → S → Result (Option Coin) → S → Type 0
    IsCharge proof fee s r s' =
        ((r ≡ ok fee) × (log s' ≡ paid proof fee (log s)))
        ⊎ ((e : Error) × (r ≡ err e) × ((log s' ≡ log s) ⊎ (log s' ≡ paid proof fee (log s))))

    charge_with-IsCharge :
        (recorder : Option (ExecRecordSpendInput → M S ExecResult)) (proof : List String)
        (fee : Option Coin) (s : S)
        → cfg.spend ≡ recorder
        → IsCharge proof fee s
            (charge_with cfg recorder proof fee s).0
            (charge_with cfg recorder proof fee s).1
    unfolding charge_with
    charge_with-IsCharge recorder proof none s h = inl (refl, refl)
    charge_with-IsCharge none proof (some fee) s h = inr (_, refl, inl refl)
    charge_with-IsCharge (some recorder) proof (some fee) s h =
        let logged = quiet.spend_logs recorder (fee_request proof fee) s h in
        elim (Result-cases (recorder (fee_request proof fee) s).0) [
          | inr (x, q) ↦ inr (wrap "record own fee: %w" [] x, ground arith, inr (ground arith))
          | inl (r, q) ↦ inl (ground arith, ground arith)
        ]

    pub charge-IsCharge :
        (proof : List String) (fee : Option Coin) (s : S)
        → IsCharge proof fee s (charge cfg proof fee s).0 (charge cfg proof fee s).1
    unfolding charge
    charge-IsCharge proof fee s = charge_with-IsCharge cfg.spend proof fee s refl
