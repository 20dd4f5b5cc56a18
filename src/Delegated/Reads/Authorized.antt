-- ===== src/Delegated/Reads/Authorized.antt =====
-- What an authorized read rests on.
use svpchain_research_agent.Base.{
  ◌≡◌, inl, inr, true, String, List, some, ok, Bytes, arith, Option-cases,
}
use svpchain_research_agent.Base.Results.{Result-cases}
use svpchain_research_agent.Json.{Json, RawMessage}
use svpchain_research_agent.Svpdt.{Verified}
use svpchain_research_agent.Delegated.{Deps, Service}
use svpchain_research_agent.Delegated.Proof.{verify_proof}
use svpchain_research_agent.Delegated.Proof.Soundness.{verify_proof-sent}
use svpchain_research_agent.Delegated.Reads.{
  ReadSpec, ArgMap, action_query_account, read_spec_for, marshalled, authorize_read,
}
use svpchain_research_agent.Delegated.Reads.Roots.{IsCurrent, check_root_state-sent}
use svpchain_research_agent.Delegated.Reads.Pinning.{IsPinned}

module _ {W O X : Type 0} (d : Deps W O X) (past : W → Type 0) where
  pub record IsAuthorized (s : Service W) (tool : String) (proof : List String) (args : RawMessage)
      (v : Verified O) (j : Json) : Type 0 where
    pub spec : ReadSpec
    pub listed : read_spec_for tool ≡ some spec
    pub tokens : List Bytes
    pub verified : (verify_proof d proof s).0 ≡ ok (tokens, v)
    pub granted : d.dt.has v.effective.actions action_query_account ≡ true
    pub current : IsCurrent d past (verify_proof d proof s).1 v
    pub map : ArgMap
    pub is_map : j ≡ marshalled map
    pub pinned : IsPinned spec v d.dt args map

module _ {W O X : Type 0} (d : Deps W O X) where
  -- However it ends, the authorization of a read hands no transaction to the chain.
  pub authorize_read-sent :
      (s : Service W) (tool : String) (proof : List String) (args : RawMessage)
      → (authorize_read d tool proof args s).1.sent ≡ s.sent
  unfolding authorize_read
  authorize_read-sent s tool proof args = elim (Option-cases (read_spec_for tool)) [
    | inl none_listed ↦ ground arith
    | inr (spec, listed) ↦ elim (Result-cases (verify_proof d proof s).0) [
      | inr (x, q) ↦ ground (arith, verify_proof-sent d s proof)
      | inl ((tokens, v), q) ↦
          ground (
            arith,
            verify_proof-sent d s proof,
            check_root_state-sent d (verify_proof d proof s).1 v,
          )
    ]
  ]
