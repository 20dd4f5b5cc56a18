-- ===== src/Agentchain/Coin.antt =====
-- internal/agentchain/service.go: coin amounts in JSON, and root ids in hex. `int_from_string` is
-- the parser of cosmossdk.io/math, which stands outside the repository.
use svpchain_research_agent.Base.{
  ℕ, ◌+◌, ℤ, not, String, List, [], ◌∷◌, Option, Result, ok, errorf, wrap, external, num, str,
  Bytes, ◌==◌, string_eq, nat_eq, length,
}
use svpchain_research_agent.Base.Hex.{decode_string}
use svpchain_research_agent.Base.Results.{◌>>=◌, ◌>>◌, guard, or_fail, map_err}
use svpchain_research_agent.Chain.{SdkCoin}

pub record Coin : Type 0 where
  pub denom : String
  pub amount : String

module _ (int_from_string : String → Option ℤ) where
  unfoldable pub to_sdk : Coin → Result SdkCoin
  to_sdk c = do
    amt ←
        or_fail (int_from_string c.amount)
          (errorf "amount %q is not a valid integer" (str c.amount ∷ []))
    guard (not (c.denom == "")) (errorf "denom is required" [])
    ok (record { denom = c.denom; amount = amt })

  coins_from : ℕ → List Coin → Result (List SdkCoin)
  coins_from i [] = ok []
  coins_from i (c ∷ cs) = map_err (wrap "coin[%d]: %w" (num i ∷ [])) (to_sdk c) >>= λ sc.
      coins_from (i + 1) cs >>= λ rest. ok (sc ∷ rest)

  unfoldable pub coins_to_sdk : List Coin → Result (List SdkCoin)
  unfolding coins_from
  coins_to_sdk cs = coins_from 0 cs

-- `root_id_len` is wallettypes.RootIDLen.
unfoldable pub root_id_from_hex : ℕ → String → Result Bytes
root_id_from_hex root_id_len s = do
  b ← or_fail (decode_string s) (wrap "root_id must be hex: %w" [] (external "encoding/hex"))
  guard (length b == root_id_len)
      (errorf "root_id must be %d bytes, got %d" (num root_id_len ∷ num (length b) ∷ []))
  ok b
