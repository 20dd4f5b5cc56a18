-- ===== src/Delegated/Proof/Redelegation.antt =====
-- Which chains pass the check of the redelegation targets, and which grants pass `preflight`.
use svpchain_research_agent.Base.{
  ℕ, ◌+◌, ◌≡◌, refl, ◌↔◌, true, String, List, [], ◌∷◌, ok, arith, Linked,
}
use svpchain_research_agent.Svpdt.{Svpdt, Token, Verified}
use svpchain_research_agent.Delegated.Proof.{check_from, check_redelegation_targets, preflight}

module _ {W O : Type 0} (dt : Svpdt W O) where
  -- The child is addressed to one that its parent lets it be passed on to.
  abbrev pub MayFollow : Token O → Token O → Type 0
  MayFollow parent child =
      dt.allows parent.payload.caveats.redelegate_to child.payload.audience ≡ true

  check_from_iff :
      (i : ℕ) (ts : List (Token O)) → (check_from dt i ts ≡ ok tt) ↔ Linked MayFollow ts
  unfolding check_from
  check_from_iff i [] = ((λ _. tt), (λ _. refl))
  check_from_iff i (p ∷ []) = ((λ _. tt), (λ _. refl))
  check_from_iff i (p ∷ c ∷ r) = ground (arith, check_from_iff (i + 1) (c ∷ r))

  -- The check passes exactly when every token but the first is addressed to an agent that the
  -- redelegate_to caveat of the token before it allows.
  pub check_redelegation_targets_iff :
      (v : Verified O) → (check_redelegation_targets dt v ≡ ok tt) ↔ Linked MayFollow v.tokens
  unfolding check_redelegation_targets
  check_redelegation_targets_iff v = check_from_iff 1 v.tokens

  -- The pre-flight check passes exactly when the credential grants the action and the subaccount.
  pub preflight_iff :
      (v : Verified O) (action : String) (subaccount : ℕ)
      → (preflight dt v action subaccount ≡ ok tt) ↔ (
          (dt.has v.effective.actions action ≡ true)
          × (dt.has_uint32 v.effective.subaccounts subaccount ≡ true))
  unfolding preflight
  preflight_iff v action subaccount = (λ h. ground arith, λ h. ground arith)
