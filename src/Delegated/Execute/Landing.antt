-- ===== src/Delegated/Execute/Landing.antt =====
-- What `execute` may hand to the chain.
use svpchain_research_agent.Base.{◌≡◌, ◌⊎◌, inl, inr, List, [], ◌∷◌, Result, ok, Bytes, arith}
use svpchain_research_agent.Base.Results.{Result-cases}
use svpchain_research_agent.Svpdt.{Verified}
use svpchain_research_agent.Chain.{Msg, AccountInfo}
use svpchain_research_agent.Operator.{new_any, sign_tx, gas_free_for}
use svpchain_research_agent.Delegated.{Deps, Service}
use svpchain_research_agent.Delegated.Execute.{wrapper, execute}

module _ {W O X : Type 0} (d : Deps W O X) where
  abbrev signing : List Bytes → Msg X → AccountInfo → Result Bytes
  signing tokens inner acct =
      sign_tx d.codec d.priv d.chain_id acct (wrapper d tokens inner ∷ []) d.fee
        (gas_free_for d.codec (wrapper d tokens inner ∷ []))

  -- A transaction with one message, the wrapper of `inner`, under the operator's key. It is gas-free
  -- only where the chain's route for short-term orders takes it.
  pub record IsWrapped (tokens : List Bytes) (inner : Msg X) (raw : Bytes) : Type 0 where
    pub account : AccountInfo
    pub valid : d.codec.validate_basic (wrapper d tokens inner) ≡ ok tt
    pub signed :
        sign_tx d.codec d.priv d.chain_id account
          (wrapper d tokens inner ∷ [])
          d.fee
          (gas_free_for d.codec (wrapper d tokens inner ∷ []))
        ≡ ok raw

  -- What an operation handed to the chain: nothing, or one such transaction.
  abbrev pub Lands : (List Bytes → Msg X → Type 0) → Service W → Service W → Type 0
  Lands May s s' =
      (s'.sent ≡ s.sent)
      ⊎ ((tokens : List Bytes) × (inner : Msg X) × (raw : Bytes) × May tokens inner
          × IsWrapped tokens inner raw
          × (s'.sent ≡ raw ∷ s.sent))

  new_any-eq-ok : (m m' : Msg X) → new_any d.codec.pack_failure m ≡ ok m' → m' ≡ m
  unfolding new_any
  new_any-eq-ok m m' h = ground arith

  pub execute_sent :
      (s : Service W) (tokens : List Bytes) (v : Verified O) (inner : Msg X)
      → ((execute d tokens v inner s).1.sent ≡ s.sent)
        ⊎ ((raw : Bytes) × IsWrapped tokens inner raw
            × ((execute d tokens v inner s).1.sent ≡ raw ∷ s.sent))
  unfolding execute
  execute_sent s tokens v inner = elim (Result-cases (new_any d.codec.pack_failure inner)) [
    | inr (e, q) ↦ inl (ground arith)
    | inl (m, q) ↦ elim (Result-cases (d.codec.validate_basic (wrapper d tokens inner))) [
      | inr (e, q') ↦ inl (ground (arith, new_any-eq-ok inner m))
      | inl (u, q') ↦ elim (Result-cases (d.account d.operator s.world).0) [
        | inr (e, q'') ↦ inl (ground (arith, new_any-eq-ok inner m))
        | inl (acct, q'') ↦ elim (Result-cases (signing tokens inner acct)) [
          | inr (e, g) ↦ inl (ground (arith, new_any-eq-ok inner m))
          | inl (raw, g) ↦ inr (
            raw,
            record { account = acct; valid = q'; signed = g },
            ground (arith, new_any-eq-ok inner m),
          )
        ]
      ]
    ]
  ]

  pub Lands-map :
      {May May' : List Bytes → Msg X → Type 0} (s s' : Service W)
      → ((tokens : List Bytes) (inner : Msg X) → May tokens inner → May' tokens inner)
      → Lands May s s'
      → Lands May' s s'
  Lands-map s s' f (inl quiet) = inl quiet
  Lands-map s s' f (inr (tokens, inner, raw, may, wrapped, one)) =
      inr (tokens, inner, raw, f tokens inner may, wrapped, one)
