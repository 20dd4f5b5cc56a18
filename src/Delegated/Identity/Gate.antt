-- ===== src/Delegated/Identity/Gate.antt =====
-- Who may have the agent act on its own behalf, and what it then hands to the chain.
use svpchain_research_agent.Base.{
  false, ◌≡◌, refl, ◌⊎◌, inl, inr, String, [], ◌∷◌, Option, none, some, ok, Bytes, M, arith, eq_iff,
}
use svpchain_research_agent.Base.Results.{Result-cases}
use svpchain_research_agent.Base.State.{◌>>=◌, ◌>>◌}
use svpchain_research_agent.Chain.{Msg, AccountInfo}
use svpchain_research_agent.Operator.{sign_tx}
use svpchain_research_agent.Delegated.{Deps, Service, TenantContext, TenantPolicy}
use svpchain_research_agent.Delegated.Execute.{ExecResult}
use svpchain_research_agent.Delegated.Identity.{require_operator, sign_and_broadcast_own}

module _ {W O X : Type 0} (d : Deps W O X) where
  -- The caller is authenticated, and the policy engine names the operator as its owner.
  pub record IsOperator (s : Service W) (tenant : Option TenantContext) : Type 0 where
    pub context : TenantContext
    pub present : tenant ≡ some context
    pub policy : TenantPolicy
    pub answered : (d.policy_tenant context.tenant_id s.world).0 ≡ ok policy
    pub is_owner : policy.owner ≡ d.operator

  -- A fee-paying transaction with the one message, under the operator's key.
  pub record IsOwn (msg : Msg X) (raw : Bytes) : Type 0 where
    pub account : AccountInfo
    pub signed : sign_tx d.codec d.priv d.chain_id account (msg ∷ []) d.fee false ≡ ok raw

  abbrev pub LandsOwn : Option TenantContext → (Msg X → Type 0) → Service W → Service W → Type 0
  LandsOwn tenant May s s' =
      (s'.sent ≡ s.sent)
      ⊎ ((msg : Msg X) × (raw : Bytes) × IsOperator s tenant
          × May msg
          × IsOwn msg raw
          × (s'.sent ≡ raw ∷ s.sent))

  sign_and_broadcast_own_sent :
      (s : Service W) (msg : Msg X)
      → ((sign_and_broadcast_own d msg s).1.sent ≡ s.sent)
        ⊎ ((raw : Bytes) × IsOwn msg raw × ((sign_and_broadcast_own d msg s).1.sent ≡ raw ∷ s.sent))
  unfolding sign_and_broadcast_own
  sign_and_broadcast_own_sent s msg = elim (Result-cases (d.account d.operator s.world).0) [
    | inr (e, q) ↦ inl (ground arith)
    | inl (acct, q) ↦
        elim (Result-cases (sign_tx d.codec d.priv d.chain_id acct (msg ∷ []) d.fee false)) [
          | inr (e, g) ↦ inl (ground arith)
          | inl (raw, g) ↦ inr (raw, record { account = acct; signed = g }, ground arith)
        ]
  ]

  module _ (s : Service W) (what : String) where
    require_operator-IsOperator :
        (tenant : Option TenantContext) (u : Unit {0})
        → (require_operator d tenant what s).0 ≡ ok u
        → IsOperator s tenant
    unfolding require_operator
    require_operator-IsOperator none u h = cc
    require_operator-IsOperator (some tc) u h =
        elim (Result-cases (d.policy_tenant tc.tenant_id s.world).0) [
          | inr (e, q) ↦ absurd (ground arith)
          | inl (tp, q) ↦ record {
            context = tc;
            present = refl;
            policy = tp;
            answered = q;
            is_owner = ground (arith, eq_iff tp.owner d.operator);
          }
        ]

    require_operator-sent :
        (tenant : Option TenantContext) → (require_operator d tenant what s).1.sent ≡ s.sent
    unfolding require_operator
    require_operator-sent none = refl
    require_operator-sent (some tc) = ground arith

    pub require_operator-card_hash :
        (tenant : Option TenantContext)
        → (require_operator d tenant what s).1.card_hash ≡ s.card_hash
    unfolding require_operator
    require_operator-card_hash none = refl
    require_operator-card_hash (some tc) = ground arith

  -- The shape that the operator's own operations share.
  abbrev pub run_own :
      Option TenantContext → String → M (Service W) (Msg X) → M (Service W) ExecResult
  run_own tenant what prepare = do
    require_operator d tenant what
    msg ← prepare
    sign_and_broadcast_own d msg

  pub run_own-Lands :
      (prepare : M (Service W) (Msg X))
      → ((s : Service W) → (prepare s).1.sent ≡ s.sent)
      → (s : Service W) (tenant : Option TenantContext) (what : String)
      → LandsOwn tenant
          (λ msg. (prepare (require_operator d tenant what s).1).0 ≡ ok msg)
          s
          (run_own tenant what prepare s).1
  run_own-Lands prepare quiet s tenant what =
      let s₁ = (require_operator d tenant what s).1 in
      elim (Result-cases (require_operator d tenant what s).0) [
        | inr (e, h) ↦ inl (ground (arith, require_operator-sent s what tenant))
        | inl (u, h) ↦ elim (Result-cases (prepare s₁).0) [
          | inr (e, p) ↦ inl (ground (arith, require_operator-sent s what tenant, quiet s₁))
          | inl (msg, p) ↦ elim (sign_and_broadcast_own_sent (prepare s₁).1 msg) [
            | inl still ↦ inl (ground (arith, require_operator-sent s what tenant, quiet s₁))
            | inr (raw, own, one) ↦ inr (
              msg,
              raw,
              require_operator-IsOperator s what tenant u h,
              p,
              own,
              ground (arith, require_operator-sent s what tenant, quiet s₁),
            )
          ]
        ]
      ]

  pub LandsOwn-map :
      {May May' : Msg X → Type 0} (tenant : Option TenantContext) (s s' : Service W)
      → ((msg : Msg X) → May msg → May' msg)
      → LandsOwn tenant May s s'
      → LandsOwn tenant May' s s'
  LandsOwn-map tenant s s' f (inl still) = inl still
  LandsOwn-map tenant s s' f (inr (msg, raw, operator, may, own, one)) =
      inr (msg, raw, operator, f msg may, own, one)
