-- ===== src/Delegated/Execute.antt =====
-- internal/delegated/service.go: delegated orders and deposits, wrapped, signed and broadcast.
pub mod Landing
pub mod Granted
pub mod Orders
use svpchain_research_agent.Base.{ℕ, Bool, String, List, [], ◌∷◌, map, wrap, Bytes, M}
use svpchain_research_agent.Base.Results.{map_err}
use svpchain_research_agent.Base.State.{◌>>=◌, ◌>>◌, lift, pure, on_error}
use svpchain_research_agent.Svpdt.{Verified}
use svpchain_research_agent.Chain.{Msg, built, exec_delegated}
use svpchain_research_agent.Operator.{new_any, sign_tx, gas_free_for}
use svpchain_research_agent.Delegated.{
  Deps, Service, Assembler, OrderBatchInput, ask, send, agent_id,
}
use svpchain_research_agent.Delegated.Proof.{verify_proof, preflight}

abbrev pub action_place_order : String
action_place_order = "clob.place_order"

abbrev pub action_cancel_order : String
action_cancel_order = "clob.cancel_order"

abbrev pub action_batch_cancel : String
action_batch_cancel = "clob.batch_cancel"

abbrev pub action_deposit : String
action_deposit = "sending.deposit_to_subaccount"

pub record ExecResult : Type 0 where
  pub tx_hash : String
  pub code : ℕ
  pub raw_log : String
  pub agent_id : String
  pub principal : String

pub record OrderParams : Type 0 where
  pub subaccount_number : ℕ
  pub ticker : String
  pub side : String
  pub size : String
  pub price : String
  pub time_in_force : String
  pub reduce_only : Bool
  pub good_til_block : ℕ
  pub order_client_id : ℕ

pub record CancelParams : Type 0 where
  pub subaccount_number : ℕ
  pub clob_pair_id : ℕ
  pub order_client_id : ℕ
  pub order_flags : ℕ
  pub good_til_block : ℕ
  pub good_til_block_time : ℕ

pub record OrderBatch : Type 0 where
  pub clob_pair_id : ℕ
  pub client_ids : List ℕ

pub record BatchCancelParams : Type 0 where
  pub subaccount_number : ℕ
  pub batches : List OrderBatch
  pub good_til_block : ℕ

pub record DepositParams : Type 0 where
  pub subaccount_number : ℕ
  pub human_usdc : String

pub record ExecPlaceOrderInput : Type 0 where
  pub proof : List String
  pub order : OrderParams

pub record ExecCancelOrderInput : Type 0 where
  pub proof : List String
  pub cancel : CancelParams

pub record ExecBatchCancelInput : Type 0 where
  pub proof : List String
  pub cancel : BatchCancelParams

pub record ExecDepositInput : Type 0 where
  pub proof : List String
  pub deposit : DepositParams

abbrev pub order_batch_input : OrderBatch → OrderBatchInput
order_batch_input b = record { clob_pair_id = b.clob_pair_id; client_ids = b.client_ids }

module _ {W O X : Type 0} (d : Deps W O X) where
  -- The one message of the transaction. `Deps.operator` is the executor.
  abbrev pub wrapper : List Bytes → Msg X → Msg X
  wrapper tokens inner = exec_delegated d.operator (agent_id d) tokens inner

  unfoldable pub execute : List Bytes → Verified O → Msg X → M (Service W) ExecResult
  execute tokens verified inner = do
    inner_any ← lift (map_err (wrap "pack inner msg: %w" []) (new_any d.codec.pack_failure inner))
    lift (d.codec.validate_basic (wrapper tokens inner_any))
    let msgs = wrapper tokens inner_any ∷ []
    let gas_free = gas_free_for d.codec msgs
    acct ← on_error (wrap "read operator account: %w" []) (ask (d.account d.operator))
    raw ← lift (sign_tx d.codec d.priv d.chain_id acct msgs d.fee gas_free)
    res ← on_error (wrap "broadcast: %w" []) (send d raw)
    pure (record {
      tx_hash = res.tx_hash;
      code = res.code;
      raw_log = res.raw_log;
      agent_id = agent_id d;
      principal = verified.principal;
    })

  -- The builders fill a throwaway payload; only their message is used.
  abbrev pub discard_assembler : Assembler
  discard_assembler = record {
    chain_id = d.chain_id;
    denom = d.fee.denom;
    amount = d.fee.amount;
    gas_limit = d.fee.gas_limit;
  }

  abbrev pub build_order : OrderParams → String → M W X
  build_order order principal =
      d.builder.place_limit_order
        (record {
          owner = principal;
          subaccount_num = order.subaccount_number;
          ticker = order.ticker;
          side = order.side;
          human_size = order.size;
          human_price = order.price;
          time_in_force = order.time_in_force;
          reduce_only = order.reduce_only;
          good_til_block = order.good_til_block;
          order_client_id = order.order_client_id;
        })
        discard_assembler

  unfoldable pub execute_place_order : ExecPlaceOrderInput → M (Service W) ExecResult
  execute_place_order req = do
    (tokens, verified) ← verify_proof d req.proof
    lift (preflight d.dt verified action_place_order req.order.subaccount_number)
    inner ← ask (build_order req.order verified.principal)
    execute tokens verified (built inner)

  abbrev pub build_cancel : CancelParams → String → M W X
  build_cancel cancel principal =
      d.builder.cancel_order
        (record {
          owner = principal;
          subaccount_num = cancel.subaccount_number;
          clob_pair_id = cancel.clob_pair_id;
          order_client_id = cancel.order_client_id;
          order_flags = cancel.order_flags;
          good_til_block = cancel.good_til_block;
          good_til_block_time = cancel.good_til_block_time;
        })
        discard_assembler

  unfoldable pub execute_cancel_order : ExecCancelOrderInput → M (Service W) ExecResult
  execute_cancel_order req = do
    (tokens, verified) ← verify_proof d req.proof
    lift (preflight d.dt verified action_cancel_order req.cancel.subaccount_number)
    inner ← ask (build_cancel req.cancel verified.principal)
    execute tokens verified (built inner)

  abbrev pub build_batch_cancel : BatchCancelParams → String → M W X
  build_batch_cancel cancel principal =
      d.builder.batch_cancel_orders
        (record {
          owner = principal;
          subaccount_num = cancel.subaccount_number;
          batches = map order_batch_input cancel.batches;
          good_til_block = cancel.good_til_block;
        })
        discard_assembler

  unfoldable pub execute_batch_cancel : ExecBatchCancelInput → M (Service W) ExecResult
  execute_batch_cancel req = do
    (tokens, verified) ← verify_proof d req.proof
    lift (preflight d.dt verified action_batch_cancel req.cancel.subaccount_number)
    inner ← ask (build_batch_cancel req.cancel verified.principal)
    execute tokens verified (built inner)

  abbrev pub build_deposit : DepositParams → String → M W X
  build_deposit deposit principal =
      d.builder.deposit_to_subaccount
        (record {
          owner = principal;
          subaccount_num = deposit.subaccount_number;
          human_usdc = deposit.human_usdc;
        })
        discard_assembler

  unfoldable pub execute_deposit_to_subaccount : ExecDepositInput → M (Service W) ExecResult
  execute_deposit_to_subaccount req = do
    (tokens, verified) ← verify_proof d req.proof
    lift (preflight d.dt verified action_deposit req.deposit.subaccount_number)
    quantums ←
        lift (map_err (wrap "human_usdc: %w" []) (d.human_to_quantums req.deposit.human_usdc))
    lift (d.check_deposit quantums)
    inner ← ask (build_deposit req.deposit verified.principal)
    execute tokens verified (built inner)
