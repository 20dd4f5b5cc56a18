-- ===== src/Toolbridge/Execution.antt =====
-- internal/toolbridge/register_execution.go: the execution family, live with the service that an
-- operator key gives, and refusing without it.
use svpchain_research_agent.Base.{String, List, [], ◌∷◌, ◌++◌, Option, none, some, Result, ok, M}
use svpchain_research_agent.Json.{RawMessage}
use svpchain_research_agent.Base.Results.{◌>>=◌}
use svpchain_research_agent.Toolbridge.{
  Native, Registry, add_refusing, adapt_native, adapt_strict_native,
}
use svpchain_research_agent.Toolbridge.Families.{skill_execution, add_all}

-- The methods of delegated.Service.
pub record ExecutionMethods (S A : Type 0) : Type 1 where
  pub execute_place_order : Native S A
  pub execute_cancel_order : Native S A
  pub execute_batch_cancel : Native S A
  pub execute_deposit_to_subaccount : Native S A
  pub execute_record_spend : Native S A
  pub get_settlement : Native S A
  pub claim : Native S A
  pub identity : Native S A
  pub self_register : Native S A
  pub self_update : Native S A

abbrev pub execution_perps_tools : List String
execution_perps_tools =
    "execute_place_order" ∷ "execute_cancel_order" ∷ "execute_batch_cancel"
    ∷ "execute_deposit_to_subaccount" ∷ []

abbrev pub execution_core_tools : List String
execution_core_tools =
    "execute_record_spend" ∷ "get_settlement" ∷ "agent_claim" ∷ "agent_identity"
    ∷ "agent_self_register" ∷ "agent_self_update" ∷ []

abbrev pub execution_tools : List String
execution_tools = execution_perps_tools ++ execution_core_tools

abbrev pub keyless_reason : String
keyless_reason =
    "delegated execution requires this deployment to configure an operator key ([operator] section); the skill is advertised so callers know it exists, but this deployment cannot serve it"

module _ {S A : Type 0} where
  unfoldable pub refuse_all : List String → Registry S A → Result (Registry S A)
  unfolding add_refusing
  refuse_all [] r = ok r
  refuse_all (tool ∷ ts) r = add_refusing skill_execution tool keyless_reason r >>= refuse_all ts

  abbrev pub core_tools : ExecutionMethods S A → List (String × (RawMessage → M S A))
  core_tools s =
      ("execute_record_spend", adapt_strict_native s.execute_record_spend)
      ∷ ("get_settlement", adapt_native s.get_settlement)
      ∷ ("agent_claim", adapt_native s.claim)
      ∷ ("agent_identity", adapt_native s.identity)
      ∷ ("agent_self_register", adapt_native s.self_register)
      ∷ ("agent_self_update", adapt_native s.self_update)
      ∷ []

  unfoldable pub register_execution_core :
      Option (ExecutionMethods S A) → Registry S A → Result (Registry S A)
  unfolding refuse_all add_all adapt_native adapt_strict_native
  register_execution_core none r = refuse_all execution_core_tools r
  register_execution_core (some s) r = add_all skill_execution (core_tools s) r

  abbrev pub perps_tools : ExecutionMethods S A → List (String × (RawMessage → M S A))
  perps_tools s =
      ("execute_place_order", adapt_strict_native s.execute_place_order)
      ∷ ("execute_cancel_order", adapt_strict_native s.execute_cancel_order)
      ∷ ("execute_batch_cancel", adapt_strict_native s.execute_batch_cancel)
      ∷ ("execute_deposit_to_subaccount", adapt_strict_native s.execute_deposit_to_subaccount)
      ∷ []

  unfoldable pub register_execution_perps :
      Option (ExecutionMethods S A) → Registry S A → Result (Registry S A)
  unfolding refuse_all add_all adapt_strict_native
  register_execution_perps none r = refuse_all execution_perps_tools r
  register_execution_perps (some s) r = add_all skill_execution (perps_tools s) r

  unfoldable pub register_execution :
      Option (ExecutionMethods S A) → Registry S A → Result (Registry S A)
  unfolding register_execution_perps register_execution_core
  register_execution s r = register_execution_perps s r >>= register_execution_core s
