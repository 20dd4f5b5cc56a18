-- ===== src/Tests/Rest.antt =====
-- The agent chain over REST, at concrete inputs.
use svpchain_research_agent.Base.{
  ℕ, ◌≡◌, refl, true, false, String, [], ◌∷◌, none, some, ok, Bytes, arith,
}
use svpchain_research_agent.Base.Base64.{nth_char}
use svpchain_research_agent.Base.Url.{path_escape}
use svpchain_research_agent.Json.{absent}
use svpchain_research_agent.Agentchain.{authorize}
use svpchain_research_agent.Agentchain.Queries.{query_agents_by_capability, query_agent, get_agent}
use svpchain_research_agent.Agentchain.Queries.Asked.{Call, agent, run}
use svpchain_research_agent.Agentrest.{Http, Codec, query, get, do_request, query_path}
use svpchain_research_agent.Agentrest.Answers.{IsTold, run-IsTold}
use svpchain_research_agent.Agentrest.BaseUrl.{IsBare, trim_slashes, trim_slashes-IsBare}
use svpchain_research_agent.Agentrest.Paths.{IsConfined, query_path-IsConfined}
use svpchain_research_agent.Tests.Agentchain.{chain, caller}

abbrev http : Http ℕ String
http = record {
  new_request = λ m url. ok url;
  url_path = λ url. url;
  send = λ r w. (ok (record { status_code = 200; body = ok (1 ∷ []) }), w);
  lex = λ b. absent;
}

abbrev codec : Codec String Bytes
codec = record {
  response = λ q b. ok "agent";
  account_response = λ b. ok b;
  unpack_account = λ b. ok (record { account_number = 3; sequence = 2 });
  broadcast_response = λ b. ok (some (record { tx_hash = "CD"; code = 0; raw_log = "" }));
  settlement_response = λ b. ok "settlement";
  claimables_response = λ b. ok "claimables";
}

abbrev one_agent : Call
one_agent = agent (record { agent_id = "did:svp:a/b" })

told_now : (run chain (query http codec "http://node:1317") caller one_agent 0).0 ≡ ok "agent"
unfolding get_agent authorize query get do_request
told_now = refl

run-IsTold_example : IsTold http codec "http://node:1317" chain caller one_agent 0 "agent"
run-IsTold_example =
    run-IsTold http codec "http://node:1317" chain caller one_agent 0 "agent" told_now

query_path-IsConfined_example :
    IsConfined "/dydxprotocol/agent/"
      (path_escape "did:svp:a/b?c")
      none
      (query_path (query_agent "did:svp:a/b?c"))
query_path-IsConfined_example = query_path-IsConfined (query_agent "did:svp:a/b?c")

escaped : path_escape "a/b?é" ≡ "a%2Fb%3F%C3%A9"
unfolding path_escape nth_char
escaped = refl

trim_slashes-IsBare_example :
    (left : String) × (trim_slashes 8 "http://" ≡ some left) × IsBare "http://" left
trim_slashes-IsBare_example = trim_slashes-IsBare 8 "http://" (omega arith)

-- Over REST the request for active agents only is the request for all.
active_only_dropped :
    query_path (query_agents_by_capability "research" true none)
    ≡ query_path (query_agents_by_capability "research" false none)
unfolding query_path
active_only_dropped = refl
