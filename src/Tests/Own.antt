-- ===== src/Tests/Own.antt =====
-- What the agent does on its own behalf, and what it records, at concrete inputs.
use svpchain_research_agent.Base.{◌≡◌, ◌≢◌, [], Option, none, some, ok, Bytes}
use svpchain_research_agent.Delegated.{TenantContext}
use svpchain_research_agent.Delegated.Execute.Landing.{Lands}
use svpchain_research_agent.Delegated.Identity.{refresh, self_register, self_update}
use svpchain_research_agent.Delegated.Identity.Gate.{LandsOwn}
use svpchain_research_agent.Delegated.Identity.Registration.{
  Registers, self_register-Lands, self_update-Lands,
}
use svpchain_research_agent.Delegated.Settlement.{
  ExecRecordSpendInput, claim_message, execute_record_spend, claim_earnings,
}
use svpchain_research_agent.Delegated.Settlement.Spend.{IsSpend, execute_record_spend-Lands}
use svpchain_research_agent.Delegated.Settlement.Claims.{claim_earnings-Lands}
use svpchain_research_agent.Tests.{deps, proof, started, order_id, operator}

abbrev caller : Option TenantContext
caller = some (record { tenant_id = "t1"; owner = operator })

abbrev spend : ExecRecordSpendInput
spend = record {
  proof = proof;
  spend = record { settlement_id = ""; amount = record { denom = "usvp"; amount = "3" } };
}

execute_record_spend-Lands_example :
    Lands deps (IsSpend deps started spend) started (execute_record_spend deps spend started).1
execute_record_spend-Lands_example = execute_record_spend-Lands deps started spend

self_register-Lands_example :
    LandsOwn deps caller (Registers deps started) started (self_register deps caller none started).1
self_register-Lands_example = self_register-Lands deps started caller none

self_update-Lands_example :
    LandsOwn deps caller
      (λ msg. (started.card_hash ≢ []) × (msg ≡ refresh deps started.card_hash))
      started
      (self_update deps caller started).1
self_update-Lands_example = self_update-Lands deps started caller

claim_earnings-Lands_example :
    LandsOwn deps caller
      (λ msg.
        (id : Bytes) × (deps.parse_settlement_id order_id ≡ ok id) × (msg ≡ claim_message deps id))
      started
      (claim_earnings deps caller order_id started).1
claim_earnings-Lands_example = claim_earnings-Lands deps started caller order_id
