-- ===== src/Delegated/Identity/Registration.antt =====
-- What the agent registers about itself.
use svpchain_research_agent.Base.{
  ◌≡◌, ◌∙◌, ◌≢◌, inl, inr, String, [], Option, none, some, ok, Bytes, M, arith,
}
use svpchain_research_agent.Base.Results.{Result-cases}
use svpchain_research_agent.Base.State.{◌>>=◌, ◌>>◌, lift, pure}
use svpchain_research_agent.Chain.{Msg, SdkCoin}
use svpchain_research_agent.Agentchain.Coin.{Coin}
use svpchain_research_agent.Delegated.{Deps, Service, TenantContext}
use svpchain_research_agent.Delegated.Identity.{
  capability_hash, require_operator, initial_bond, registration, self_register, refresh,
  self_update,
}
use svpchain_research_agent.Delegated.Identity.Gate.{
  LandsOwn, LandsOwn-map, run_own, run_own-Lands, require_operator-card_hash,
}

abbrev register_reason : String
register_reason = "self-registration escrows the operator's funds and"

abbrev update_reason : String
update_reason = "self-update rewrites the on-chain registration and"

module _ {W O X : Type 0} (d : Deps W O X) where
  prepare_registration : Option Coin → M (Service W) (Msg X)
  prepare_registration bond_override = do
    bond ← initial_bond d bond_override
    cap_hash ← λ s. (capability_hash d s, s)
    lift (d.codec.validate_basic (registration d bond cap_hash))
    pure (registration d bond cap_hash)

  prepare_refresh : M (Service W) (Msg X)
  prepare_refresh = do
    cap_hash ← λ s. (capability_hash d s, s)
    lift (d.codec.validate_basic (refresh d cap_hash))
    pure (refresh d cap_hash)

  initial_bond-kept :
      (bond : Option Coin) (s : Service W)
      → ((initial_bond d bond s).1.sent ≡ s.sent)
        × ((initial_bond d bond s).1.card_hash ≡ s.card_hash)
  unfolding initial_bond
  initial_bond-kept none s = ground arith
  initial_bond-kept (some c) s = ground arith

  prepare_registration-sent :
      (bond : Option Coin) (s : Service W) → (prepare_registration bond s).1.sent ≡ s.sent
  unfolding prepare_registration
  prepare_registration-sent bond s = ground (arith, initial_bond-kept bond s)

  prepare_refresh-sent : (s : Service W) → (prepare_refresh s).1.sent ≡ s.sent
  unfolding prepare_refresh
  prepare_refresh-sent s = ground arith

  -- A registration of this agent by its operator, with the hash of the card that is served.
  abbrev pub Registers : Service W → Msg X → Type 0
  Registers s msg = (s.card_hash ≢ []) × (bond : SdkCoin) × (msg ≡ registration d bond s.card_hash)

  capability_hash-eq-ok :
      (s : Service W) (h : Bytes)
      → capability_hash d s ≡ ok h
      → (s.card_hash ≢ []) × (h ≡ s.card_hash)
  unfolding capability_hash
  capability_hash-eq-ok s h e = ground arith

  prepare_registration-Registers :
      (bond : Option Coin) (s : Service W) (msg : Msg X)
      → (prepare_registration bond s).0 ≡ ok msg
      → Registers s msg
  unfolding prepare_registration
  prepare_registration-Registers bond s msg h = elim (Result-cases (initial_bond d bond s).0) [
    | inr (e, q) ↦ absurd (ground arith)
    | inl (coin, q) ↦ elim (Result-cases (capability_hash d (initial_bond d bond s).1)) [
      | inr (e, r) ↦ absurd (ground arith)
      | inl (hash, r) ↦
          let (filled, same) = capability_hash-eq-ok (initial_bond d bond s).1 hash r in
          let kept = (initial_bond-kept bond s).1 in
          (λ e. filled (kept ∙ e), coin, ground (arith, same, kept))
    ]
  ]

  register_shape :
      (s : Service W) (tenant : Option TenantContext) (bond : Option Coin)
      → self_register d tenant bond s
        ≡ run_own d tenant register_reason (prepare_registration bond) s
  unfolding self_register prepare_registration
  register_shape s tenant bond = ground arith

  refresh_shape :
      (s : Service W) (tenant : Option TenantContext)
      → self_update d tenant s ≡ run_own d tenant update_reason prepare_refresh s
  unfolding self_update prepare_refresh
  refresh_shape s tenant = ground arith

  prepare_refresh-eq :
      (s : Service W) (msg : Msg X)
      → (prepare_refresh s).0 ≡ ok msg
      → (s.card_hash ≢ []) × (msg ≡ refresh d s.card_hash)
  unfolding prepare_refresh
  prepare_refresh-eq s msg h = elim (Result-cases (capability_hash d s)) [
    | inr (e, r) ↦ absurd (ground arith)
    | inl (hash, r) ↦
        let (filled, same) = capability_hash-eq-ok s hash r in (filled, ground (arith, same))
  ]

  -- In whatever way it ends, a self-registration hands to the chain either nothing, or exactly one
  -- fee-paying transaction under the operator's key, and then only for an authenticated caller whom
  -- the policy engine names as the operator: the registration of this agent with the hash, which is
  -- not empty, of the card that the service serves.
  pub self_register-Lands :
      (s : Service W) (tenant : Option TenantContext) (bond : Option Coin)
      → LandsOwn d tenant (Registers s) s (self_register d tenant bond s).1
  self_register-Lands s tenant bond = rw (register_shape s tenant bond) (
      LandsOwn-map d tenant s (run_own d tenant register_reason (prepare_registration bond) s).1
        (λ msg p. rw (require_operator-card_hash d s register_reason tenant) at (
          prepare_registration-Registers bond (require_operator d tenant register_reason s).1 msg
            p))
        (run_own-Lands d (prepare_registration bond) (prepare_registration-sent bond) s tenant
          register_reason))

  -- In whatever way it ends, a self-update hands to the chain either nothing, or exactly one
  -- fee-paying transaction under the operator's key, and then only for an authenticated caller whom
  -- the policy engine names as the operator: the update of this agent with the hash, which is not
  -- empty, of the card that the service serves.
  pub self_update-Lands :
      (s : Service W) (tenant : Option TenantContext)
      → LandsOwn d tenant
          (λ msg. (s.card_hash ≢ []) × (msg ≡ refresh d s.card_hash))
          s
          (self_update d tenant s).1
  self_update-Lands s tenant = rw (refresh_shape s tenant) (
      LandsOwn-map d tenant s (run_own d tenant update_reason prepare_refresh s).1
        (λ msg p.
          rw (require_operator-card_hash d s update_reason tenant) at
            (prepare_refresh-eq (require_operator d tenant update_reason s).1 msg p))
        (run_own-Lands d prepare_refresh prepare_refresh-sent s tenant update_reason))
