-- ===== src/Tests/Keys.antt =====
-- The keys of a registered agent, and the chain that a hop sends on, at concrete inputs.
use svpchain_research_agent.Base.{
  ℕ, ◌≡◌, refl, ◌⊎◌, String, List, [], ◌∷◌, some, none, ok, Bytes, arith,
}
use svpchain_research_agent.Base.Base64.{decode}
use svpchain_research_agent.Delegated.{Deps, AgentRecord}
use svpchain_research_agent.Delegated.Proof.{decode_tokens}
use svpchain_research_agent.Delegated.Resolver.{registered_key, public_keys}
use svpchain_research_agent.Delegated.Resolver.Keys.{IsPublished, public_keys-resolves}
use svpchain_research_agent.Intermediary.{forwarded_chain}
use svpchain_research_agent.Intermediary.Chain.{decode_tokens-forwarded_chain}
use svpchain_research_agent.Tests.{deps, me, tokens}
use svpchain_research_agent.Tests.Intermediary.{config, request}

abbrev agent : AgentRecord
agent = record {
  agent_id = me;
  public_key = 5 ∷ 6 ∷ [];
  status = "active";
  bond = "100";
  endpoint = "";
  capability_hash = [];
}

abbrev registry : Deps ℕ (List String) String
registry = record deps { query_agent = λ id w. (ok (some agent), w) }

resolved_now : (public_keys registry me 0).0 ≡ ok ((5 ∷ 6 ∷ []) ∷ [])
unfolding public_keys
resolved_now = refl

public_keys-resolves_example :
    (key : Bytes) × (((5 ∷ 6 ∷ []) ∷ []) ≡ key ∷ [])
    × ((registered_key (registry.query_agent me 0).0 ≡ some key)
        ⊎ ((registered_key (registry.query_agent me 0).0 ≡ none) × IsPublished registry me 0 key))
public_keys-resolves_example = public_keys-resolves registry me 0 ((5 ∷ 6 ∷ []) ∷ []) resolved_now

decoded_now : decode_tokens 0 request.proof ≡ ok tokens
unfolding decode_tokens decode
decoded_now = refl

decode_tokens-forwarded_chain_example :
    decode_tokens 0 (forwarded_chain config request (7 ∷ []))
    ≡ ok ((1 ∷ 2 ∷ []) ∷ (3 ∷ 4 ∷ []) ∷ (7 ∷ []) ∷ [])
decode_tokens-forwarded_chain_example =
    decode_tokens-forwarded_chain config request tokens (7 ∷ []) (omega arith, tt) decoded_now
