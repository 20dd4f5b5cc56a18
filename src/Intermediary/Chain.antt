-- ===== src/Intermediary/Chain.antt =====
-- What one hop sends on is what the next one reads.
use svpchain_research_agent.Base.{
  ℕ, ◌+◌, ◌<◌, ◌≡◌, inl, inr, String, List, [], ◌∷◌, ◌++◌, ok, Bytes, arith, All, Option-cases,
}
use svpchain_research_agent.Base.Base64.{encode, decode, decode-encode}
use svpchain_research_agent.Base.Results.{Result-cases}
use svpchain_research_agent.Delegated.Proof.{decode_tokens}
use svpchain_research_agent.Intermediary.{Config, ForwardInput, forwarded_chain}

decode_tokens-append :
    (i : ℕ) (proof : List String) (tokens : List Bytes) (encoded : Bytes)
    → All (λ b. b < 256) encoded
    → decode_tokens i proof ≡ ok tokens
    → decode_tokens i (proof ++ encode encoded ∷ []) ≡ ok (tokens ++ encoded ∷ [])
unfolding decode_tokens
decode_tokens-append i [] tokens encoded small h =
    let back = decode-encode encoded small in ground arith
decode_tokens-append i (t ∷ ts) tokens encoded small h = elim (Option-cases (decode t)) [
  | inl q ↦ absurd (ground arith)
  | inr (raw, q) ↦ elim (Result-cases (decode_tokens (i + 1) ts)) [
    | inr (x, r) ↦ absurd (ground arith)
    | inl (rest, r) ↦
        let back = decode_tokens-append (i + 1) ts rest encoded small r in ground arith
  ]
]

module _ {S O : Type 0} (cfg : Config S O) where
  -- Where a task's proof decodes to a list of tokens, the chain that the hop sends on for a child
  -- whose bytes are below 256 decodes to that list with the child's bytes at its end.
  pub decode_tokens-forwarded_chain :
      (req : ForwardInput) (tokens : List Bytes) (encoded : Bytes)
      → All (λ b. b < 256) encoded
      → decode_tokens 0 req.proof ≡ ok tokens
      → decode_tokens 0 (forwarded_chain cfg req encoded) ≡ ok (tokens ++ encoded ∷ [])
  decode_tokens-forwarded_chain req tokens encoded small h =
      decode_tokens-append 0 req.proof tokens encoded small h
