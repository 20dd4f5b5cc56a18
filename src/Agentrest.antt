-- ===== src/Agentrest.antt =====
-- internal/agentrest/client.go: the agent chain over its REST API. net/http and the chain's codec
-- are the fields of `Http`; `W` is the world, and `Req` a request that net/http made.
pub mod BaseUrl
pub mod Paths
pub mod Answers
use svpchain_research_agent.Base.{
  ℕ, Bool, String, List, [], ◌∷◌, Option, none, some, Result, ok, err, Error, errorf, wrap, str,
  num, Bytes, M, ◌==◌, nat_eq, string_eq, ◌<>◌, pos, not, ◌&&◌, suc, zero, if◌then◌else◌,
}
use svpchain_research_agent.Base.Base64.{encode}
use svpchain_research_agent.Base.Decimal.{to_string}
use svpchain_research_agent.Base.Results.{map_err}
use svpchain_research_agent.Base.State.{◌>>=◌, lift, pure, throw, on_error}
use svpchain_research_agent.Base.Url.{path_escape, encode_url}
use svpchain_research_agent.Chain.{AccountInfo, BroadcastResult}
use svpchain_research_agent.Json as Json
use svpchain_research_agent.Json.{Json, RawMessage, Fields, end, field}
use svpchain_research_agent.Json.Structs.{unmarshal_struct}
use svpchain_research_agent.Agentchain.Queries.{
  PageRequest, ChainQuery, query_agent, query_agent_by_operator, query_all_agents,
  query_agents_by_owner, query_agents_by_capability, query_params, query_wallet_params,
  query_delegation, query_epoch, query_spend, query_delegations_by_delegator,
}

pub data Method : Type 0 where
  method_get : Method
  method_post : Json → Method

pub record Response : Type 0 where
  pub status_code : ℕ
  pub body : Result Bytes

pub record Http (W Req : Type 0) : Type 0 where
  -- http.NewRequestWithContext, with the header of a JSON body where there is one.
  pub new_request : Method → String → Result Req
  pub url_path : Req → String
  pub send : Req → M W Response
  -- What a body is as JSON.
  pub lex : Bytes → RawMessage

abbrev take : ℕ → Bytes → Bytes
take zero bs = []
take (suc n) [] = []
take (suc n) (b ∷ bs) = b ∷ take n bs

-- `1<<20`
abbrev pub body_limit : ℕ
body_limit = 1048576

-- json.Unmarshal into a string that may hold something.
abbrev string_over : Json → String → Result String
string_over Json.null held = ok held
string_over (Json.str s) held = ok s
string_over _ held = err Json.decode_error

unfoldable pub gateway_message : RawMessage → Result String
unfolding unmarshal_struct
gateway_message raw = unmarshal_struct string_over "message" "" raw

abbrev status_error : String → ℕ → Result String → Error
status_error path status (err e) =
    errorf "agent chain REST %s: HTTP %d" (str path ∷ num status ∷ [])
status_error path status (ok said) =
    if said == ""
    then errorf "agent chain REST %s: HTTP %d" (str path ∷ num status ∷ [])
    else errorf "agent chain REST %s: %s (HTTP %d)" (str path ∷ str said ∷ num status ∷ [])

-- The only pagination field that the services use.
unfoldable pub limit_query : Option PageRequest → String
limit_query none = ""
limit_query (some p) = if p.limit == 0 then "" else "?pagination.limit=" <> to_string (pos p.limit)

unfoldable pub root_id : Bytes → String
unfolding encode_url
root_id b = encode_url b

-- The path of each query of agentchain.
unfoldable pub query_path : ChainQuery → String
unfolding limit_query root_id
query_path (query_agent id) = "/dydxprotocol/agent/" <> path_escape id
query_path (query_agent_by_operator o) = "/dydxprotocol/agent/agent_by_operator/" <> path_escape o
query_path (query_all_agents p) = "/dydxprotocol/agent/agents" <> limit_query p
query_path (query_agents_by_owner o p) =
    "/dydxprotocol/agent/agents_by_owner/" <> path_escape o <> limit_query p
query_path (query_agents_by_capability c active p) =
    "/dydxprotocol/agent/agents_by_capability/" <> path_escape c <> limit_query p
query_path query_params = "/dydxprotocol/agent/params"
query_path (query_delegation r) = "/dydxprotocol/agentwallet/delegation/" <> root_id r
query_path (query_delegations_by_delegator a p) =
    "/dydxprotocol/agentwallet/delegations_by_delegator/" <> path_escape a <> limit_query p
query_path (query_epoch r) = "/dydxprotocol/agentwallet/epoch/" <> root_id r
query_path (query_spend r) = "/dydxprotocol/agentwallet/spend/" <> root_id r
query_path query_wallet_params = "/dydxprotocol/agentwallet/params"

-- The x/auth and settlement queries.
unfoldable pub account_path : String → String
account_path address = "/cosmos/auth/v1beta1/accounts/" <> path_escape address

unfoldable pub settlement_path : Bytes → String
unfolding root_id
settlement_path id = "/dydxprotocol/settlement/settlement/" <> root_id id

unfoldable pub claimables_path : Bytes → String
unfolding root_id
claimables_path id = "/dydxprotocol/settlement/claimables_by_settlement/" <> root_id id

-- sdktx.BroadcastTxResponse, whose `tx_response` may be nil.
abbrev pub BroadcastTxResponse : Type 0
BroadcastTxResponse = Option BroadcastResult

unfoldable pub broadcast_body : Bytes → Json
broadcast_body tx =
    Json.obj
      (field "mode" (Json.str "BROADCAST_MODE_SYNC") (field "tx_bytes" (Json.str (encode tx)) end))

-- `io.LimitReader(resp.Body, 1<<20)`
abbrev pub limited : Result Bytes → Result Bytes
limited (ok b) = ok (take body_limit b)
limited (err e) = err e

-- The chain's codec, by the message that is waited for. An account comes packed.
pub record Codec (R Packed : Type 0) : Type 0 where
  pub response : ChainQuery → Bytes → Result R
  pub account_response : Bytes → Result Packed
  pub unpack_account : Packed → Result AccountInfo
  pub broadcast_response : Bytes → Result BroadcastTxResponse
  pub settlement_response : Bytes → Result R
  pub claimables_response : Bytes → Result R

module _ {W Req : Type 0} (http : Http W Req) where
  abbrev pub read_answer : {R : Type 0} → (Bytes → Result R) → Req → ℕ → Bytes → M W R
  read_answer decode req status body =
      if status == 200
      then lift (
          map_err (wrap "agent chain REST %s: decode response: %w" (str (http.url_path req) ∷ []))
            (decode body))
      else throw (status_error (http.url_path req) status (gateway_message (http.lex body)))

  unfoldable pub do_request : {R : Type 0} → (Bytes → Result R) → Req → M W R
  unfolding gateway_message
  do_request decode req = do
    resp ← on_error (wrap "agent chain REST %s: %w" (str (http.url_path req) ∷ [])) (http.send req)
    body ← lift (
        map_err (wrap "agent chain REST %s: read body: %w" (str (http.url_path req) ∷ []))
          (limited resp.body))
    read_answer decode req resp.status_code body

  unfoldable pub get : {R : Type 0} → String → (Bytes → Result R) → String → M W R
  unfolding do_request
  get base decode path = do
    req ← lift (http.new_request method_get (base <> path))
    do_request decode req

  module _ {R Packed : Type 0} (codec : Codec R Packed) (base : String) where
    -- agentchain.AgentQuerier and agentchain.WalletQuerier.
    unfoldable pub query : ChainQuery → M W R
    unfolding get query_path
    query q = get base (codec.response q) (query_path q)

    -- delegated.SettlementQuerier
    unfoldable pub settlement : Bytes → M W R
    unfolding get settlement_path
    settlement id = get base codec.settlement_response (settlement_path id)

    unfoldable pub claimables_by_settlement : Bytes → M W R
    unfolding get claimables_path
    claimables_by_settlement id = get base codec.claimables_response (claimables_path id)

    unfoldable pub account : String → M W Packed
    unfolding get account_path
    account address = get base codec.account_response (account_path address)

    -- accountAdapter
    unfoldable pub account_info : String → M W AccountInfo
    unfolding account
    account_info address = do
      packed ← account address
      lift (map_err (wrap "unpack account %s: %w" (str address ∷ [])) (codec.unpack_account packed))

    abbrev tx_response : BroadcastTxResponse → Result BroadcastResult
    tx_response none = err (errorf "agent chain REST broadcast: empty tx_response" [])
    tx_response (some r) = ok r

    unfoldable pub broadcast_sync : Bytes → M W BroadcastResult
    unfolding do_request broadcast_body
    broadcast_sync tx = do
      req ←
          lift
            (http.new_request (method_post (broadcast_body tx)) (base <> "/cosmos/tx/v1beta1/txs"))
      out ← do_request codec.broadcast_response req
      lift (tx_response out)
