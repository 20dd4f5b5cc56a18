-- ===== src/Agentrest/Paths.antt =====
-- internal/agentrest/client.go: what a caller's text can do to the path of a request.
use text.Mathlib.TextLemmas.{nil-append, append-nil}
use svpchain_research_agent.Base.{◌≡◌, refl, ap, subst, sym, true, String, Option, none, ◌<>◌}
use svpchain_research_agent.Base.Url.{
  is_segment, path_escape, encode_url, path_escape-segment, encode_url-segment,
}
use svpchain_research_agent.Agentchain.Queries.{
  PageRequest, ChainQuery, query_agent, query_agent_by_operator, query_all_agents,
  query_agents_by_owner, query_agents_by_capability, query_params, query_wallet_params,
  query_delegation, query_epoch, query_spend, query_delegations_by_delegator,
}
use svpchain_research_agent.Agentrest.{query_path, limit_query, root_id}

-- Where each query goes, whatever its arguments.
abbrev prefix_of : ChainQuery → String
prefix_of (query_agent id) = "/dydxprotocol/agent/"
prefix_of (query_agent_by_operator o) = "/dydxprotocol/agent/agent_by_operator/"
prefix_of (query_all_agents p) = "/dydxprotocol/agent/agents"
prefix_of (query_agents_by_owner o p) = "/dydxprotocol/agent/agents_by_owner/"
prefix_of (query_agents_by_capability c active p) = "/dydxprotocol/agent/agents_by_capability/"
prefix_of query_params = "/dydxprotocol/agent/params"
prefix_of (query_delegation r) = "/dydxprotocol/agentwallet/delegation/"
prefix_of (query_delegations_by_delegator a p) =
    "/dydxprotocol/agentwallet/delegations_by_delegator/"
prefix_of (query_epoch r) = "/dydxprotocol/agentwallet/epoch/"
prefix_of (query_spend r) = "/dydxprotocol/agentwallet/spend/"
prefix_of query_wallet_params = "/dydxprotocol/agentwallet/params"

-- What the caller named, as a segment of a path, and the page that it asks for.
abbrev segment_of : ChainQuery → String
segment_of (query_agent id) = path_escape id
segment_of (query_agent_by_operator o) = path_escape o
segment_of (query_all_agents p) = ""
segment_of (query_agents_by_owner o p) = path_escape o
segment_of (query_agents_by_capability c active p) = path_escape c
segment_of query_params = ""
segment_of (query_delegation r) = encode_url r
segment_of (query_delegations_by_delegator a p) = path_escape a
segment_of (query_epoch r) = encode_url r
segment_of (query_spend r) = encode_url r
segment_of query_wallet_params = ""

abbrev page_of : ChainQuery → Option PageRequest
page_of (query_agent id) = none
page_of (query_agent_by_operator o) = none
page_of (query_all_agents p) = p
page_of (query_agents_by_owner o p) = p
page_of (query_agents_by_capability c active p) = p
page_of query_params = none
page_of (query_delegation r) = none
page_of (query_delegations_by_delegator a p) = p
page_of (query_epoch r) = none
page_of (query_spend r) = none
page_of query_wallet_params = none

-- The prefix, one segment, and a limit.
pub record IsConfined (prefix segment : String) (page : Option PageRequest) (path : String)
    : Type 0 where
  pub one_segment : is_segment segment ≡ true
  pub whole : path ≡ prefix <> segment <> limit_query page

confined :
    (prefix segment : String)
    → is_segment segment ≡ true
    → (p : Option PageRequest) → IsConfined prefix segment p (prefix <> segment <> limit_query p)
confined prefix segment h p = record { one_segment = h; whole = refl }

unlimited :
    (prefix segment : String)
    → is_segment segment ≡ true
    → IsConfined prefix segment none (prefix <> segment)
unfolding limit_query
unlimited prefix segment h = record {
  one_segment = h;
  whole = ap (λ r. prefix <> r) (sym (append-nil segment));
}

bare : (path : String) → IsConfined path "" none path
bare path = subst (IsConfined path "" none) (append-nil path) (unlimited path "" refl)

-- The path of a query is the one that belongs to the operation, then one segment, which is what the
-- caller named with its letters escaped and in which none ends the segment or begins a query or a
-- fragment, then at most the limit of the page that is asked for.
pub query_path-IsConfined :
    (q : ChainQuery) → IsConfined (prefix_of q) (segment_of q) (page_of q) (query_path q)
unfolding query_path root_id
query_path-IsConfined (query_agent id) = unlimited _ (path_escape id) (path_escape-segment id)
query_path-IsConfined (query_agent_by_operator o) =
    unlimited _ (path_escape o) (path_escape-segment o)
query_path-IsConfined (query_all_agents p) = record {
  one_segment = refl;
  whole = ap (λ r. "/dydxprotocol/agent/agents" <> r) (sym (nil-append (limit_query p)));
}
query_path-IsConfined (query_agents_by_owner o p) =
    confined _ (path_escape o) (path_escape-segment o) p
query_path-IsConfined (query_agents_by_capability c active p) =
    confined _ (path_escape c) (path_escape-segment c) p
query_path-IsConfined query_params = bare "/dydxprotocol/agent/params"
query_path-IsConfined (query_delegation r) = unlimited _ (encode_url r) (encode_url-segment r)
query_path-IsConfined (query_delegations_by_delegator a p) =
    confined _ (path_escape a) (path_escape-segment a) p
query_path-IsConfined (query_epoch r) = unlimited _ (encode_url r) (encode_url-segment r)
query_path-IsConfined (query_spend r) = unlimited _ (encode_url r) (encode_url-segment r)
query_path-IsConfined query_wallet_params = bare "/dydxprotocol/agentwallet/params"
