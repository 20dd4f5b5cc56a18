-- ===== src/Intermediary/Narrow.antt =====
-- What narrowing keeps, drops and tightens.
use svpchain_research_agent.Base.{
  ℕ, ◌+◌, ◌≤◌, ◌<◌, ℤ, pos, ◌≤ℤ◌, ◌≡◌, ◌≢◌, refl, ◌⊎◌, inl, inr, true, false, String, List, [], ◌∷◌,
  Option, none, some, ok, arith, add64, is_negative,
}
use svpchain_research_agent.Base.Int.{int64_half}
use svpchain_research_agent.Base.Results.{Result-cases}
use svpchain_research_agent.Svpdt.{Caveats, DtCoin}
use svpchain_research_agent.Agentchain.Coin.{Coin}
use svpchain_research_agent.Intermediary.{
  Config, NarrowSpec, to_dt_coins, narrow_actions, narrow_subaccounts, narrow_coins, narrow_expires,
  narrow,
}

module _ {S O : Type 0} (cfg : Config S O) where
  narrow_expires-le :
      (held ttl e : ℤ) (s : S) → (narrow_expires cfg held ttl s).0 ≡ ok e → e ≤ℤ held
  unfolding narrow_expires
  narrow_expires-le held ttl e s h = ground arith

  -- An inherited budget, or the requested one in the library's form.
  abbrev pub BudgetFrom : List DtCoin → Option Coin → List DtCoin → Type 0
  BudgetFrom held asked got =
      ((asked ≡ none) × (got ≡ held))
      ⊎ ((c : Coin) × (asked ≡ some c) × (to_dt_coins cfg c ≡ ok got))

  narrow_coins-BudgetFrom :
      (what : String) (held got : List DtCoin) (asked : Option Coin)
      → narrow_coins cfg what held asked ≡ ok got
      → BudgetFrom held asked got
  narrow_coins-BudgetFrom what held got none h = inl (refl, ground arith)
  narrow_coins-BudgetFrom what held got (some c) h = inr (c, refl, ground arith)

  abbrev pub ActionsFrom : List String → List String → List String → Type 0
  ActionsFrom held asked got =
      ((asked ≡ []) × (got ≡ held)) ⊎ ((asked ≢ []) × (cfg.new_string_set asked ≡ ok got))

  narrow_actions-ActionsFrom :
      (held asked got : List String)
      → narrow_actions cfg held asked ≡ ok got
      → ActionsFrom held asked got
  narrow_actions-ActionsFrom held [] got h = inl (refl, ground arith)
  narrow_actions-ActionsFrom held (a ∷ r) got h = inr (λ q. absurd (ground arith), ground arith)

  abbrev pub SubaccountsFrom : List ℕ → List ℕ → List ℕ → Type 0
  SubaccountsFrom held asked got =
      ((asked ≡ []) × (got ≡ held)) ⊎ ((asked ≢ []) × (got ≡ cfg.new_uint32_set asked))

  narrow_subaccounts-SubaccountsFrom :
      (held asked : List ℕ) → SubaccountsFrom held asked (narrow_subaccounts cfg held asked)
  narrow_subaccounts-SubaccountsFrom held [] = inl (refl, refl)
  narrow_subaccounts-SubaccountsFrom held (n ∷ r) = inr (λ q. absurd (ground arith), refl)

  pub record IsNarrowed (parent : Caveats O) (spec : NarrowSpec) (child : Caveats O) : Type 0 where
    pub closed : child.redelegable ≡ false
    pub no_target : cfg.constrained_to [] ≡ ok child.redelegate_to
    pub same_settlement : child.settlement ≡ parent.settlement
    pub not_later : child.expires ≤ℤ parent.expires
    pub actions_from : ActionsFrom parent.actions spec.actions child.actions
    pub subaccounts_from : SubaccountsFrom parent.subaccounts spec.subaccounts child.subaccounts
    pub budget_from : BudgetFrom parent.budget spec.budget child.budget
    pub svc_budget_from : BudgetFrom parent.svc_budget spec.svc_budget child.svc_budget

  abbrev tightened :
      Caveats O → NarrowSpec → O → List String → List DtCoin → List DtCoin → ℤ → Caveats O
  tightened parent spec empty actions budget svc_budget expires = record parent {
    redelegable = false;
    redelegate_to = empty;
    actions = actions;
    subaccounts = narrow_subaccounts cfg parent.subaccounts spec.subaccounts;
    budget = budget;
    svc_budget = svc_budget;
    expires = expires;
  }

  module _ (parent child : Caveats O) (spec : NarrowSpec) (s : S) where
    -- The caveats of a child credential, when narrowing succeeds: it cannot be passed on, neither
    -- by the flag nor by the empty list of targets; it expires no later than its parent and keeps
    -- its settlement binding; its actions, subaccounts and budgets are the parent's where nothing
    -- is asked, and the library's form of what is asked otherwise.
    pub narrow-IsNarrowed : (narrow cfg parent spec s).0 ≡ ok child → IsNarrowed parent spec child
    unfolding narrow
    narrow-IsNarrowed h = elim (Result-cases (cfg.constrained_to [])) [
      | inr (x, q) ↦ absurd (ground arith)
      | inl (empty, q₀) ↦ elim (Result-cases (narrow_actions cfg parent.actions spec.actions)) [
        | inr (x, q) ↦ absurd (ground arith)
        | inl (actions, q₁) ↦
            elim (Result-cases (narrow_coins cfg "narrow budget: %w" parent.budget spec.budget)) [
              | inr (x, q) ↦ absurd (ground arith)
              | inl (budget, q₂) ↦
                  elim (Result-cases
                    (narrow_coins cfg "narrow svc_budget: %w" parent.svc_budget spec.svc_budget)) [
                      | inr (x, q) ↦ absurd (ground arith)
                      | inl (svc, q₃) ↦
                          elim (Result-cases
                            (narrow_expires cfg parent.expires spec.ttl_seconds s).0) [
                              | inr (x, q) ↦ absurd (ground arith)
                              | inl (e, q₄) ↦
                                  let same : tightened parent spec empty actions budget svc e
                                      ≡ child =
                                    ground arith in
                                  rw (← same) (record {
                                    closed = refl;
                                    no_target = q₀;
                                    same_settlement = refl;
                                    not_later =
                                        narrow_expires-le parent.expires spec.ttl_seconds e s q₄;
                                    actions_from =
                                        narrow_actions-ActionsFrom parent.actions spec.actions
                                          actions q₁;
                                    subaccounts_from =
                                        narrow_subaccounts-SubaccountsFrom parent.subaccounts
                                          spec.subaccounts;
                                    budget_from =
                                        narrow_coins-BudgetFrom "narrow budget: %w" parent.budget
                                          budget spec.budget q₂;
                                    svc_budget_from =
                                        narrow_coins-BudgetFrom "narrow svc_budget: %w"
                                          parent.svc_budget svc spec.svc_budget q₃;
                                  })
                            ]
                    ]
            ]
      ]
    ]

  -- Where the clock reads t, and t and a requested lifetime are below 2^63 with a sum that is not,
  -- and the parent's expiry is not negative, the child's expiry is negative.
  pub narrow_expires_wraps :
      (s : S) (s' : S) (t ttl held : ℕ)
      → cfg.now s ≡ (ok (pos t), s')
      → t < int64_half
      → ttl < int64_half
      → int64_half ≤ t + ttl
      → (e : ℤ) × (narrow_expires cfg (pos held) (pos ttl) s ≡ (ok e, s')) × (is_negative e ≡ true)
  unfolding narrow_expires add64
  narrow_expires_wraps s s' t ttl held c ht httl over =
      (add64 (pos t) (pos ttl), ground arith, ground arith)
