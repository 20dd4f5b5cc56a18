-- ===== src/Intermediary/Still.antt =====
-- What the steps of a hop that only ask leave alone.
use svpchain_research_agent.Base.{
  ◌≡◌, inl, inr, String, List, [], Bytes, arith, ltb_ℤ, pos, ℤ, Bool-cases,
}
use svpchain_research_agent.Base.Results.{Result-cases}
use svpchain_research_agent.Svpdt.{Caveats, Token, AttenuateParams}
use svpchain_research_agent.Intermediary.{
  Config, ForwardInput, NarrowSpec, admit, mint, narrow, narrow_expires, child_params, last_of,
  narrow_actions, narrow_coins,
}

-- What verifying, the clock, the nonces and the attenuation do not change.
pub record IsStill {S O L : Type 0} (cfg : Config S O) (measure : S → L) : Type 0 where
  pub verify_still : (p : List String) (s : S) → measure (cfg.verify p s).1 ≡ measure s
  pub now_still : (s : S) → measure (cfg.now s).1 ≡ measure s
  pub nonce_still : (s : S) → measure (cfg.draw_nonce s).1 ≡ measure s
  pub attenuate_still : (a : AttenuateParams O) (s : S) → measure (cfg.attenuate a s).1 ≡ measure s

module _ {S O L : Type 0} (cfg : Config S O) (log : S → L) (still : IsStill cfg log) where
  pub log-admit : (req : ForwardInput) (s : S) → log (admit cfg req s).1 ≡ log s
  unfolding admit
  log-admit req s =
      let kept = still.verify_still req.proof s in
      elim (Result-cases (cfg.verify req.proof s).0) [
        | inr (x, q) ↦ ground arith
        | inl ((ts, w), q) ↦ elim (Result-cases (last_of w.tokens)) [
          | inr (x, r) ↦ ground arith
          | inl (l, r) ↦ ground arith
        ]
      ]

  log-narrow_expires : (held ttl : ℤ) (s : S) → log (narrow_expires cfg held ttl s).1 ≡ log s
  unfolding narrow_expires
  log-narrow_expires held ttl s =
      let kept = still.now_still s in
      elim (Bool-cases (ltb_ℤ (pos 0) ttl)) [
        | inl q ↦ elim (Result-cases (cfg.now s).0) [
          | inr (x, r) ↦ ground arith
          | inl (t, r) ↦ ground arith
        ]
        | inr q ↦ ground arith
      ]

  log-narrow :
      (parent : Caveats O) (spec : NarrowSpec) (s : S) → log (narrow cfg parent spec s).1 ≡ log s
  unfolding narrow
  log-narrow parent spec s =
      let kept = log-narrow_expires parent.expires spec.ttl_seconds s in
      elim (Result-cases (cfg.constrained_to [])) [
        | inr (x, q) ↦ ground arith
        | inl (e, q) ↦ elim (Result-cases (narrow_actions cfg parent.actions spec.actions)) [
          | inr (x, r) ↦ ground arith
          | inl (a, r) ↦
              elim (Result-cases (narrow_coins cfg "narrow budget: %w" parent.budget spec.budget)) [
                | inr (x, t) ↦ ground arith
                | inl (b, t) ↦
                    elim (Result-cases (
                      narrow_coins cfg "narrow svc_budget: %w" parent.svc_budget spec.svc_budget)) [
                        | inr (x, u) ↦ ground arith
                        | inl (v, u) ↦
                            elim (Result-cases
                              (narrow_expires cfg parent.expires spec.ttl_seconds s).0) [
                                | inr (x, w) ↦ ground arith
                                | inl (z, w) ↦ ground arith
                              ]
                      ]
              ]
        ]
      ]

  pub log-mint :
      (req : ForwardInput) (tokens : List Bytes) (leaf : Token O) (s : S)
      → log (mint cfg req tokens leaf s).1 ≡ log s
  unfolding mint
  log-mint req tokens leaf s =
      let n = narrow cfg leaf.payload.caveats req.narrow s in
      let narrow_still = log-narrow leaf.payload.caveats req.narrow s in
      elim (Result-cases n.0) [
        | inr (x, q) ↦ ground arith
        | inl (c, q) ↦ elim (Result-cases (last_of tokens)) [
          | inr (x, r) ↦ ground arith
          | inl (p, r) ↦
              let nonce_still = still.nonce_still n.1 in
              elim (Result-cases (cfg.draw_nonce n.1).0) [
                | inr (x, t) ↦ ground arith
                | inl (k, t) ↦
                    let child_still =
                      still.attenuate_still (child_params cfg req p c k) (cfg.draw_nonce n.1).1 in
                    elim (Result-cases
                      (cfg.attenuate (child_params cfg req p c k) (cfg.draw_nonce n.1).1).0) [
                        | inr (x, u) ↦ ground arith
                        | inl (y, u) ↦ ground arith
                      ]
              ]
        ]
      ]
