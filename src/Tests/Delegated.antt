-- ===== src/Tests/Delegated.antt =====
-- The execution service at concrete inputs.
use svpchain_research_agent.Base.{
  ℕ, pos, ◌≡◌, refl, true, false, [], ◌∷◌, ok, sub64, Linked, ◌↔◌, inl,
}
use svpchain_research_agent.Delegated.Proof.{
  verify_proof, wallet_params, preflight, check_redelegation_targets, decode_tokens,
}
use svpchain_research_agent.Base.Base64.{decode}
use svpchain_research_agent.Base.Decimal.{set_string}
use svpchain_research_agent.Operator.{new_any, pack_all, fee_coins, sign_tx, gas_free_for}
use svpchain_research_agent.Delegated.Proof.Cache.{ticked, wallet_params_again, wallet_params_miss}
use svpchain_research_agent.Delegated.Proof.Redelegation.{
  MayFollow, check_redelegation_targets_iff, preflight_iff,
}
use svpchain_research_agent.Delegated.Proof.Soundness.{
  IsVerified, verify_proof-IsVerified, verify_proof-sent,
}
use svpchain_research_agent.Delegated.Execute.{
  ExecPlaceOrderInput, ExecCancelOrderInput, ExecBatchCancelInput, ExecDepositInput,
  action_place_order, action_cancel_order, action_batch_cancel, action_deposit, build_order,
  build_cancel, build_batch_cancel, execute_place_order, execute_cancel_order, execute_batch_cancel,
  execute_deposit_to_subaccount, execute,
}
use svpchain_research_agent.Delegated.Execute.Landing.{Lands}
use svpchain_research_agent.Delegated.Execute.Orders.{
  IsBuilt, build_checked, execute_place_order-Lands, execute_cancel_order-Lands,
  execute_batch_cancel-Lands, execute_deposit-Lands,
}
use svpchain_research_agent.Tests.{deps, dt, grant, proof, tokens, started, warm, token}

verified_now : verify_proof deps proof started ≡ (ok (tokens, grant), warm)
unfolding verify_proof wallet_params decode_tokens decode check_redelegation_targets
verified_now = refl

verify_proof-IsVerified_example : IsVerified deps started proof tokens grant
verify_proof-IsVerified_example =
    verify_proof-IsVerified deps started warm proof tokens grant verified_now

verify_proof-sent_example : (verify_proof deps proof started).1.sent ≡ []
verify_proof-sent_example = verify_proof-sent deps started proof

check_redelegation_targets_iff_example :
    (check_redelegation_targets dt grant ≡ ok tt) ↔ Linked (MayFollow dt) (token ∷ token ∷ [])
check_redelegation_targets_iff_example = check_redelegation_targets_iff dt grant

preflight_iff_example :
    (preflight dt grant "clob.place_order" 1 ≡ ok tt) ↔ ((true ≡ true) × (true ≡ true))
preflight_iff_example = preflight_iff dt grant "clob.place_order" 1

read_now :
    wallet_params deps started
    ≡ (ok (record { max_delegation_depth = 4; max_token_ttl_seconds = 86400 }), warm)
unfolding wallet_params
read_now = refl

wallet_params_again_example :
    wallet_params deps warm
    ≡ (ok (record { max_delegation_depth = 4; max_token_ttl_seconds = 86400 }), ticked deps warm)
unfolding sub64
wallet_params_again_example = wallet_params_again deps started warm _ read_now refl

wallet_params_miss_example :
    (w : ℕ) × ((deps.wallet_params w).0
      ≡ ok (record { max_delegation_depth = 4; max_token_ttl_seconds = 86400 }))
    × (pos 100 ≡ (deps.now (deps.wallet_params w).1).0)
wallet_params_miss_example = wallet_params_miss deps started warm _ (inl refl) read_now

abbrev place : ExecPlaceOrderInput
place = record {
  proof = proof;
  order = record {
    subaccount_number = 1;
    ticker = "BTC-USD";
    side = "buy";
    size = "1";
    price = "2";
    time_in_force = "";
    reduce_only = false;
    good_til_block = 9;
    order_client_id = 4;
  };
}

-- The order goes out, as one transaction.
placed : (execute_place_order deps place started).1.sent ≡ (3 ∷ []) ∷ []
unfolding execute_place_order verify_proof wallet_params decode_tokens decode
    check_redelegation_targets preflight execute new_any pack_all fee_coins sign_tx gas_free_for
    set_string
placed = refl

execute_place_order-Lands_example :
    Lands deps
      (IsBuilt deps started proof action_place_order 1 (build_order deps place.order))
      started
      (execute_place_order deps place started).1
execute_place_order-Lands_example = execute_place_order-Lands deps started place

abbrev cancel : ExecCancelOrderInput
cancel = record {
  proof = proof;
  cancel = record {
    subaccount_number = 0;
    clob_pair_id = 1;
    order_client_id = 4;
    order_flags = 0;
    good_til_block = 9;
    good_til_block_time = 0;
  };
}

execute_cancel_order-Lands_example :
    Lands deps
      (IsBuilt deps started proof action_cancel_order 0 (build_cancel deps cancel.cancel))
      started
      (execute_cancel_order deps cancel started).1
execute_cancel_order-Lands_example = execute_cancel_order-Lands deps started cancel

abbrev batch : ExecBatchCancelInput
batch = record {
  proof = proof;
  cancel = record {
    subaccount_number = 0;
    batches = record { clob_pair_id = 1; client_ids = 4 ∷ 5 ∷ [] } ∷ [];
    good_til_block = 9;
  };
}

execute_batch_cancel-Lands_example :
    Lands deps
      (IsBuilt deps started proof action_batch_cancel 0 (build_batch_cancel deps batch.cancel))
      started
      (execute_batch_cancel deps batch started).1
execute_batch_cancel-Lands_example = execute_batch_cancel-Lands deps started batch

abbrev deposit : ExecDepositInput
deposit = record { proof = proof; deposit = record { subaccount_number = 1; human_usdc = "5" } }

execute_deposit-Lands_example :
    Lands deps
      (IsBuilt deps started proof action_deposit 1 (build_checked deps deposit.deposit))
      started
      (execute_deposit_to_subaccount deps deposit started).1
execute_deposit-Lands_example = execute_deposit-Lands deps started deposit
