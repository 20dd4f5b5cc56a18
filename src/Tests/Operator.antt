-- ===== src/Tests/Operator.antt =====
-- Signing at concrete inputs.
use svpchain_research_agent.Base.{◌≡◌, refl, false, String, [], ◌∷◌, ok}
use svpchain_research_agent.Base.Decimal.{set_string}
use svpchain_research_agent.Chain.{Msg, built, AccountInfo}
use svpchain_research_agent.Operator.{new_any, pack_all, fee_coins, sign_tx}
use svpchain_research_agent.Operator.Signing.{IsSigned, sign_tx-IsSigned}
use svpchain_research_agent.Tests.{codec, deps}

abbrev account : AccountInfo
account = record { account_number = 7; sequence = 1 }

abbrev order : Msg String
order = built "place"

signed_now : sign_tx codec deps.priv "svp-1" account (order ∷ []) deps.fee false ≡ ok (3 ∷ [])
unfolding new_any pack_all fee_coins sign_tx set_string
signed_now = refl

sign_tx-IsSigned_example :
    IsSigned codec deps.priv "svp-1" account (order ∷ []) deps.fee false (3 ∷ [])
sign_tx-IsSigned_example =
    sign_tx-IsSigned codec deps.priv "svp-1" account (order ∷ []) deps.fee false (3 ∷ []) signed_now
