-- ===== src/Delegated/Proof/Soundness.antt =====
-- What a verified credential chain is, and that the check broadcasts nothing.
use svpchain_research_agent.Base.{
  ℕ, ◌+◌, ℤ, ◌≡◌, refl, inl, inr, String, List, [], ◌∷◌, some, ok, Bytes, arith, Linked, length,
}
use svpchain_research_agent.Base.Base64.{decode}
use svpchain_research_agent.Base.Results.{Result-cases}
use svpchain_research_agent.Svpdt.{Verified}
use svpchain_research_agent.Delegated.{Deps, Service, Params}
use svpchain_research_agent.Delegated.Resolver.{public_keys}
use svpchain_research_agent.Delegated.Proof.{
  decode_tokens, wallet_params, verify_opts, verify_proof,
}
use svpchain_research_agent.Delegated.Proof.Redelegation.{MayFollow, check_redelegation_targets_iff}

-- Each token is the base64 of its bytes.
abbrev pub Decoded : List String → List Bytes → Type 0
Decoded [] [] = Unit
Decoded [] (b ∷ bs) = ⊥
Decoded (t ∷ ts) [] = ⊥
Decoded (t ∷ ts) (b ∷ bs) = (decode t ≡ some b) × Decoded ts bs

decode_tokens-Decoded :
    (i : ℕ) (ts : List String) (bs : List Bytes) → decode_tokens i ts ≡ ok bs → Decoded ts bs
unfolding decode_tokens
decode_tokens-Decoded i [] [] h = tt
decode_tokens-Decoded i [] (b ∷ bs) h = cc
decode_tokens-Decoded i (t ∷ ts) [] h = ground arith
decode_tokens-Decoded i (t ∷ ts) (b ∷ bs) h = ground (arith, decode_tokens-Decoded (i + 1) ts bs)

Decoded-length : (ts : List String) (bs : List Bytes) → Decoded ts bs → length bs ≡ length ts
Decoded-length [] [] h = refl
Decoded-length [] (b ∷ bs) h = absurd h
Decoded-length (t ∷ ts) [] h = absurd h
Decoded-length (t ∷ ts) (b ∷ bs) h = omega (arith, Decoded-length ts bs h.1)

module _ {W O X : Type 0} (d : Deps W O X) where
  -- The clock reading of the check, and the world that it leaves.
  abbrev pub checked_at : Service W → ℤ × W
  checked_at s = d.now (wallet_params d s).1.world

  -- What `verify_proof` establishes of the tokens and the grant that it answers.
  pub record IsVerified (s : Service W) (proof : List String) (tokens : List Bytes) (v : Verified O)
      : Type 0 where
    pub decoded : Decoded proof tokens
    pub linked : Linked (MayFollow d.dt) v.tokens
    pub params : Params
    pub in_force : (wallet_params d s).0 ≡ ok params
    pub accepted :
        (d.dt.verify_chain tokens
          (public_keys d)
          (verify_opts d params (checked_at s).0)
          (checked_at s).1).0
        ≡ ok v

  -- A chain that `verify_proof` lets through, whatever the state: the answered tokens are the
  -- base64 readings of the proof, one for one; the credential library accepted those tokens under
  -- the wallet parameters in force, the chain id, the clock reading and this agent as the audience;
  -- and each token but the first is addressed to an agent that the one before it allows.
  pub verify_proof-IsVerified :
      (s s' : Service W) (proof : List String) (tokens : List Bytes) (v : Verified O)
      → verify_proof d proof s ≡ (ok (tokens, v), s')
      → IsVerified s proof tokens v
  unfolding verify_proof
  verify_proof-IsVerified s s' proof tokens v h = elim (Result-cases (wallet_params d s).0) [
    | inl (p, e) ↦ record {
      decoded = decode_tokens-Decoded 0 proof tokens (ground arith);
      linked = (check_redelegation_targets_iff d.dt v).0 (ground arith);
      params = p;
      in_force = e;
      accepted = ground arith;
    }
    | inr (e, q) ↦ absurd (ground arith)
  ]

  wallet_params-sent : (s : Service W) → (wallet_params d s).1.sent ≡ s.sent
  unfolding wallet_params
  wallet_params-sent s = ground arith

  -- However it ends, the check of a proof hands no transaction to the chain.
  pub verify_proof-sent :
      (s : Service W) (proof : List String) → (verify_proof d proof s).1.sent ≡ s.sent
  unfolding verify_proof
  verify_proof-sent s proof = ground (arith, wallet_params-sent s)

  wallet_params-epoch_cache : (s : Service W) → (wallet_params d s).1.epoch_cache ≡ s.epoch_cache
  unfolding wallet_params
  wallet_params-epoch_cache s = ground arith

  -- Nor does it touch the cache of root states.
  pub verify_proof-epoch_cache :
      (s : Service W) (proof : List String) → (verify_proof d proof s).1.epoch_cache ≡ s.epoch_cache
  unfolding verify_proof
  verify_proof-epoch_cache s proof = ground (arith, wallet_params-epoch_cache s)
