-- ===== src/Delegated/Proof.antt =====
-- internal/delegated/service.go: the cached wallet parameters and the check of a credential chain.
pub mod Redelegation
pub mod Cache
pub mod Soundness
use svpchain_research_agent.Base.{
  ℕ, suc, ◌+◌, ℤ, pos, Bool, true, false, not, String, List, [], ◌∷◌, Option, none, some, Result,
  ok, err, Error, errorf, wrap, external, num, str, strs, nums, Bytes, M, null, ltb_ℤ, sub64,
  if◌then◌else◌,
}
use svpchain_research_agent.Base.Base64.{decode}
use svpchain_research_agent.Base.Results
use svpchain_research_agent.Base.Results.{guard, map_err, or_fail}
use svpchain_research_agent.Base.State.{◌>>=◌, ◌>>◌, lift, check, pure, on_error}
use svpchain_research_agent.Svpdt.{Svpdt, Token, Verified, VerifyOpts}
use svpchain_research_agent.Delegated.{Deps, Service, Params, ask, clock, agent_id}
use svpchain_research_agent.Delegated.Resolver.{public_keys}

unfoldable pub decode_tokens : ℕ → List String → Result (List Bytes)
decode_tokens i [] = ok []
decode_tokens i (t ∷ ts) =
    Results.◌>>=◌
      (or_fail (decode t)
        (wrap "proof[%d] is not base64: %w" (num i ∷ []) (external "illegal base64 data")))
      λ raw. Results.◌>>=◌ (decode_tokens (i + 1) ts) λ rest. ok (raw ∷ rest)

module _ {W O : Type 0} (dt : Svpdt W O) where
  -- `i` is the index of the second token of the list.
  unfoldable pub check_from : ℕ → List (Token O) → Result (Unit {0})
  check_from i [] = ok tt
  check_from i (parent ∷ []) = ok tt
  check_from i (parent ∷ child ∷ r) =
      Results.◌>>◌
        (guard (dt.allows parent.payload.caveats.redelegate_to child.payload.audience) (
          errorf
            "depth-%d token is addressed to %q, which its parent's redelegate_to does not allow"
            (num (i + 1) ∷ str child.payload.audience ∷ [])))
        (check_from (i + 1) (child ∷ r))

  unfoldable pub check_redelegation_targets : Verified O → Result (Unit {0})
  unfolding check_from
  check_redelegation_targets v = check_from 1 v.tokens

  unfoldable pub preflight : Verified O → String → ℕ → Result (Unit {0})
  preflight v action subaccount =
      Results.◌>>◌
        (guard (dt.has v.effective.actions action) (
          errorf "credential does not grant action %q (granted: %v)"
            (str action ∷ strs v.effective.actions ∷ [])))
        (guard (dt.has_uint32 v.effective.subaccounts subaccount) (
          errorf "credential does not grant subaccount %d (granted: %v)"
            (num subaccount ∷ nums v.effective.subaccounts ∷ [])))

module _ {W O X : Type 0} (d : Deps W O X) where
  abbrev store_params : Params → ℤ → Service W → Service W
  store_params p t s = record s { cached_params = some p; params_fetched = t }

  fetch_params : M (Service W) Params
  fetch_params = do
    resp ← on_error (wrap "fetch agentwallet params: %w" []) (ask d.wallet_params)
    t ← clock d
    λ s. (ok resp, store_params resp t s)

  unfoldable pub wallet_params : M (Service W) Params
  unfolding fetch_params
  wallet_params s = elim s.cached_params [
    | none ↦ fetch_params s
    | some p ↦
        (clock d >>= λ t s₁.
        if ltb_ℤ (sub64 t s₁.params_fetched) s₁.params_cache_ttl
        then (ok p, s₁)
        else fetch_params s₁)
          s
  ]

  abbrev pub verify_opts : Params → ℤ → VerifyOpts
  verify_opts params t = record {
    chain_id = d.chain_id;
    now = t;
    max_depth = params.max_delegation_depth;
    max_ttl_seconds = pos params.max_token_ttl_seconds;
    audience = agent_id d;
  }

  unfoldable pub verify_proof : List String → M (Service W) (List Bytes × Verified O)
  verify_proof proof = do
    check (not (null proof)) (
        errorf
          "a delegation proof is required: attach the SVP-DT token chain (base64, root first) as message metadata \"svp.delegation/v1\""
          [])
    tokens ← lift (decode_tokens 0 proof)
    params ← wallet_params
    t ← clock d
    verified ←
        on_error (wrap "credential chain rejected: %w" [])
          (ask (d.dt.verify_chain tokens (public_keys d) (verify_opts params t)))
    lift (
        map_err (wrap "credential chain rejected: %w" [])
          (check_redelegation_targets d.dt verified))
    pure (tokens, verified)

  -- The same check, for the role that passes credentials on.
  unfoldable pub verify_inbound : List String → M (Service W) (List Bytes × Verified O)
  unfolding verify_proof
  verify_inbound proof = verify_proof proof
