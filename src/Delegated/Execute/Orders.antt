-- ===== src/Delegated/Execute/Orders.antt =====
-- What the delegated orders and the deposit may hand to the chain.
use svpchain_research_agent.Base.{
  ℕ, ◌≡◌, inl, inr, String, List, [], Result, ok, wrap, Bytes, M, arith,
}
use svpchain_research_agent.Base.Results
use svpchain_research_agent.Base.Results.{Result-cases, map_err}
use svpchain_research_agent.Base.State.{◌>>=◌, ◌>>◌, lift, pure}
use svpchain_research_agent.Svpdt.{Verified}
use svpchain_research_agent.Chain.{Msg, built}
use svpchain_research_agent.Delegated.{Deps, Service, ask}
use svpchain_research_agent.Delegated.Proof.{verify_proof, preflight}
use svpchain_research_agent.Delegated.Execute.{
  ExecResult, ExecPlaceOrderInput, ExecCancelOrderInput, ExecBatchCancelInput, ExecDepositInput,
  DepositParams, action_place_order, action_cancel_order, action_batch_cancel, action_deposit,
  execute, build_order, build_cancel, build_batch_cancel, build_deposit, execute_place_order,
  execute_cancel_order, execute_batch_cancel, execute_deposit_to_subaccount,
}
use svpchain_research_agent.Delegated.Execute.Landing.{Lands, Lands-map}
use svpchain_research_agent.Delegated.Execute.Granted.{IsGranted, IsPrepared, run_op, run_op-Lands}

module _ {W O X : Type 0} (d : Deps W O X) where
  -- Under such a grant, a message that the builder made for the credential's principal.
  pub record IsBuilt (s : Service W) (proof : List String) (action : String) (subaccount : ℕ)
      (build : String → M W X) (tokens : List Bytes) (inner : Msg X) : Type 0 where
    pub grant : Verified O
    pub granted : IsGranted d s proof action subaccount tokens grant
    pub body : X
    pub is_body : inner ≡ built body
    pub world : W
    pub for_principal : (build grant.principal world).0 ≡ ok body

  abbrev prepare : (String → M W X) → Verified O → M (Service W) (Msg X)
  prepare build v = do inner ← ask (build v.principal); pure (built inner)

  -- The order operations, over the builder's function.
  abbrev run_order : List String → String → ℕ → (String → M W X) → M (Service W) ExecResult
  run_order proof action subaccount build = do
    (tokens, verified) ← verify_proof d proof
    lift (preflight d.dt verified action subaccount)
    inner ← ask (build verified.principal)
    execute d tokens verified (built inner)

  module _ (s : Service W) (proof : List String) (action : String) (subaccount : ℕ)
      (build : String → M W X) where
    prepare-IsBuilt :
        (tokens : List Bytes) (inner : Msg X)
        → IsPrepared d s proof action subaccount (prepare build) tokens inner
        → IsBuilt s proof action subaccount build tokens inner
    prepare-IsBuilt tokens inner p = elim (Result-cases (build p.grant.principal p.state.world).0) [
      | inl (x, b) ↦ record {
        grant = p.grant;
        granted = p.granted;
        body = x;
        is_body = ground (arith, p.prepared);
        world = p.state.world;
        for_principal = b;
      }
      | inr (e, b) ↦ absurd (ground (arith, p.prepared))
    ]

    run_order_shape :
        run_order proof action subaccount build s
        ≡ run_op d proof action subaccount (prepare build) s
    run_order_shape = ground arith

    run_order-Lands :
        Lands d
          (IsBuilt s proof action subaccount build)
          s
          (run_order proof action subaccount build s).1
    run_order-Lands = rw run_order_shape (
        Lands-map d s (run_op d proof action subaccount (prepare build) s).1 prepare-IsBuilt
          (run_op-Lands d (prepare build) (λ v s₁. ground arith) s proof action subaccount))

  -- In whatever way it ends, placing an order hands to the chain either nothing, or exactly one
  -- transaction: the operator's signature over the one wrapper of a message that the builder made
  -- for the credential's principal and the requested order, under a chain that verified in the
  -- starting state and grants clob.place_order on the order's subaccount.
  pub execute_place_order-Lands :
      (s : Service W) (req : ExecPlaceOrderInput)
      → Lands d
          (IsBuilt s req.proof action_place_order req.order.subaccount_number
            (build_order d req.order))
          s
          (execute_place_order d req s).1
  unfolding execute_place_order
  execute_place_order-Lands s req =
      run_order-Lands s req.proof action_place_order req.order.subaccount_number
        (build_order d req.order)

  -- In whatever way it ends, cancelling an order hands to the chain either nothing, or exactly one
  -- transaction: the operator's signature over the one wrapper of a message that the builder made
  -- for the credential's principal and the requested cancellation, under a chain that verified in
  -- the starting state and grants clob.cancel_order on its subaccount.
  pub execute_cancel_order-Lands :
      (s : Service W) (req : ExecCancelOrderInput)
      → Lands d
          (IsBuilt s req.proof action_cancel_order req.cancel.subaccount_number
            (build_cancel d req.cancel))
          s
          (execute_cancel_order d req s).1
  unfolding execute_cancel_order
  execute_cancel_order-Lands s req =
      run_order-Lands s req.proof action_cancel_order req.cancel.subaccount_number
        (build_cancel d req.cancel)

  -- In whatever way it ends, a batch cancellation hands to the chain either nothing, or exactly one
  -- transaction: the operator's signature over the one wrapper of a message that the builder made
  -- for the credential's principal and the requested batches, under a chain that verified in the
  -- starting state and grants clob.batch_cancel on its subaccount.
  pub execute_batch_cancel-Lands :
      (s : Service W) (req : ExecBatchCancelInput)
      → Lands d
          (IsBuilt s req.proof action_batch_cancel req.cancel.subaccount_number
            (build_batch_cancel d req.cancel))
          s
          (execute_batch_cancel d req s).1
  unfolding execute_batch_cancel
  execute_batch_cancel-Lands s req =
      run_order-Lands s req.proof action_batch_cancel req.cancel.subaccount_number
        (build_batch_cancel d req.cancel)

  -- The deposit's own ceiling, before the builder.
  abbrev pub within_ceiling : DepositParams → Result (Unit {0})
  within_ceiling deposit =
      Results.◌>>=◌ (map_err (wrap "human_usdc: %w" []) (d.human_to_quantums deposit.human_usdc))
        d.check_deposit

  abbrev pub build_checked : DepositParams → String → M W X
  build_checked deposit principal =
      lift (within_ceiling deposit) >> build_deposit d deposit principal

  deposit_shape :
      (s : Service W) (req : ExecDepositInput)
      → execute_deposit_to_subaccount d req s
        ≡ run_order req.proof action_deposit req.deposit.subaccount_number
            (build_checked req.deposit)
            s
  unfolding execute_deposit_to_subaccount
  deposit_shape s req = ground arith

  -- In whatever way it ends, a deposit hands to the chain either nothing, or exactly one
  -- transaction: the operator's signature over the one wrapper of a message that the builder made
  -- for the credential's principal and the requested amount, after that amount had been read as
  -- quantums and the ceiling had admitted them, under a chain that verified in the starting state
  -- and grants sending.deposit_to_subaccount on its subaccount.
  pub execute_deposit-Lands :
      (s : Service W) (req : ExecDepositInput)
      → Lands d
          (IsBuilt s req.proof action_deposit req.deposit.subaccount_number
            (build_checked req.deposit))
          s
          (execute_deposit_to_subaccount d req s).1
  execute_deposit-Lands s req = rw (deposit_shape s req) (
      run_order-Lands s req.proof action_deposit req.deposit.subaccount_number
        (build_checked req.deposit))
