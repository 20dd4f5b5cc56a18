-- ===== src/Delegated/Execute/Granted.antt =====
-- The shape that the delegated operations share, and what it may hand to the chain.
use svpchain_research_agent.Base.{ℕ, true, ◌≡◌, inl, inr, String, List, ok, Bytes, M, arith}
use svpchain_research_agent.Base.Results.{Result-cases}
use svpchain_research_agent.Base.State.{◌>>=◌, ◌>>◌, lift}
use svpchain_research_agent.Svpdt.{Verified}
use svpchain_research_agent.Chain.{Msg}
use svpchain_research_agent.Delegated.{Deps, Service}
use svpchain_research_agent.Delegated.Proof.{verify_proof, preflight}
use svpchain_research_agent.Delegated.Proof.Redelegation.{preflight_iff}
use svpchain_research_agent.Delegated.Proof.Soundness.{verify_proof-sent}
use svpchain_research_agent.Delegated.Execute.{ExecResult, execute}
use svpchain_research_agent.Delegated.Execute.Landing.{Lands, execute_sent}

module _ {W O X : Type 0} (d : Deps W O X) where
  -- The proof verifies in `s`, and its chain grants the action on the subaccount.
  pub record IsGranted (s : Service W) (proof : List String) (action : String) (subaccount : ℕ)
      (tokens : List Bytes) (v : Verified O) : Type 0 where
    pub verified : (verify_proof d proof s).0 ≡ ok (tokens, v)
    pub action_granted : d.dt.has v.effective.actions action ≡ true
    pub subaccount_granted : d.dt.has_uint32 v.effective.subaccounts subaccount ≡ true

  -- Under such a grant, a message that `prepare` made from it.
  pub record IsPrepared (s : Service W) (proof : List String) (action : String) (subaccount : ℕ)
      (prepare : Verified O → M (Service W) (Msg X)) (tokens : List Bytes) (inner : Msg X)
      : Type 0 where
    pub grant : Verified O
    pub granted : IsGranted s proof action subaccount tokens grant
    pub state : Service W
    pub prepared : (prepare grant state).0 ≡ ok inner

  abbrev pub run_op :
      List String → String → ℕ → (Verified O → M (Service W) (Msg X)) → M (Service W) ExecResult
  run_op proof action subaccount prepare = do
    (tokens, verified) ← verify_proof d proof
    lift (preflight d.dt verified action subaccount)
    inner ← prepare verified
    execute d tokens verified inner

  module _ (prepare : Verified O → M (Service W) (Msg X))
      (quiet : (v : Verified O) (s : Service W) → (prepare v s).1.sent ≡ s.sent) (s : Service W)
      (proof : List String) (action : String) (subaccount : ℕ) where
    after_grant :
        (tokens : List Bytes) (v : Verified O) (s₁ : Service W)
        → verify_proof d proof s ≡ (ok (tokens, v), s₁)
        → preflight d.dt v action subaccount ≡ ok tt
        → Lands d
            (IsPrepared s proof action subaccount prepare)
            s
            (run_op proof action subaccount prepare s).1
    after_grant tokens v s₁ h p = elim (Result-cases (prepare v s₁).0) [
      | inr (e, b) ↦ inl (ground (arith, verify_proof-sent d s proof, quiet v s₁))
      | inl (inner, b) ↦ elim (execute_sent d (prepare v s₁).1 tokens v inner) [
        | inl still ↦ inl (ground (arith, verify_proof-sent d s proof, quiet v s₁))
        | inr (raw, wrapped, one) ↦
            let (a, k) = (preflight_iff d.dt v action subaccount).0 p in
            inr (
              tokens,
              inner,
              raw,
              record {
                grant = v;
                granted = record {
                  verified = ground arith;
                  action_granted = a;
                  subaccount_granted = k;
                };
                state = s₁;
                prepared = b;
              },
              wrapped,
              ground (arith, verify_proof-sent d s proof, quiet v s₁),
            )
      ]
    ]

    pub run_op-Lands :
        Lands d
          (IsPrepared s proof action subaccount prepare)
          s
          (run_op proof action subaccount prepare s).1
    run_op-Lands = elim (Result-cases (verify_proof d proof s).0) [
      | inr (e, h) ↦ inl (ground (arith, verify_proof-sent d s proof))
      | inl ((tokens, v), h) ↦ elim (Result-cases (preflight d.dt v action subaccount)) [
        | inr (e, p) ↦ inl (ground (arith, verify_proof-sent d s proof))
        | inl (u, p) ↦ after_grant tokens v (verify_proof d proof s).1 (ground arith) p
      ]
    ]
