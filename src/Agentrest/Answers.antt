-- ===== src/Agentrest/Answers.antt =====
-- internal/agentrest/client.go: what an answer of the client stands on.
use svpchain_research_agent.Base.{
  ◌≡◌, ap, sym, ◌∙◌, inl, inr, String, Bool-cases, Option, none, some, Result, ok, Bytes, arith,
  ◌==◌, nat_eq, nat_eqb_iff, ◌<>◌,
}
use svpchain_research_agent.Base.Results.{Result-cases}
use svpchain_research_agent.Chain.{BroadcastResult}
use svpchain_research_agent.Delegated.{TenantContext}
use svpchain_research_agent.Agentchain.{AgentDeps, authorize}
use svpchain_research_agent.Agentchain.Builds.Owned.{IsTenant}
use svpchain_research_agent.Agentchain.Queries.{ChainQuery}
use svpchain_research_agent.Agentchain.Queries.Asked.{Call, run, request_of, run-IsAsked}
use svpchain_research_agent.Agentrest.{
  Method, method_get, method_post, Response, Http, Codec, take, body_limit, query_path,
  broadcast_body, do_request, get, query, broadcast_sync,
}

module _ {W Req : Type 0} (http : Http W Req) where
  -- The server took this request and answered 200 with a body that reads as this, of which no more
  -- is read than the limit.
  pub record IsServed {R : Type 0} (decode : Bytes → Result R) (method : Method) (url : String)
      (w : W) (out : R) : Type 0 where
    pub request : Req
    pub is_request : http.new_request method url ≡ ok request
    pub response : Response
    pub sent : (http.send request w).0 ≡ ok response
    pub status : response.status_code ≡ 200
    pub body : Bytes
    pub is_body : response.body ≡ ok body
    pub read : decode (take body_limit body) ≡ ok out

  do_request-IsServed :
      {R : Type 0} (decode : Bytes → Result R) (method : Method) (url : String) (req : Req) (w : W)
      (out : R)
      → http.new_request method url ≡ ok req
      → (do_request http decode req w).0 ≡ ok out
      → IsServed decode method url w out
  unfolding do_request
  do_request-IsServed decode method url req w out made h = elim (Result-cases (http.send req w).0) [
    | inr (x, q) ↦ absurd (ground arith)
    | inl (resp, q) ↦ elim (Result-cases resp.body) [
      | inr (x, r) ↦ absurd (ground arith)
      | inl (body, r) ↦ elim (Bool-cases (resp.status_code == 200)) [
        | inr other ↦ absurd (ground arith)
        | inl fine ↦ elim (Result-cases (decode (take body_limit body))) [
          | inr (x, p) ↦ absurd (ground arith)
          | inl (o, p) ↦ record {
            request = req;
            is_request = made;
            response = resp;
            sent = q;
            status = (nat_eqb_iff resp.status_code 200).0 fine;
            body = body;
            is_body = r;
            read = ground arith;
          }
        ]
      ]
    ]
  ]

  module _ {R Packed : Type 0} (codec : Codec R Packed) (base : String) where
    query-IsServed :
        (q : ChainQuery) (w : W) (out : R)
        → (query http codec base q w).0 ≡ ok out
        → IsServed (codec.response q) method_get (base <> query_path q) w out
    unfolding query get
    query-IsServed q w out h =
        elim (Result-cases (http.new_request method_get (base <> query_path q))) [
          | inr (x, p) ↦ absurd (ground arith)
          | inl (req, p) ↦
              do_request-IsServed (codec.response q) method_get (base <> query_path q) req w out p
                (ground arith)
        ]

    -- The caller is let in, and the chain's REST server took the one request that its input stands
    -- for and answered 200 with this response.
    pub record IsTold {P : Type 0} (d : AgentDeps W P) (tenant : Option TenantContext) (c : Call)
        (w : W) (out : R) : Type 0 where
      pub owner : String
      pub tenant_is : IsTenant d w tenant owner
      pub request : ChainQuery
      pub is_request : request_of d.root_id_len c ≡ ok request
      pub served :
          IsServed
            (codec.response request)
            method_get
            (base <> query_path request)
            (authorize d tenant w).1
            out

    -- A query operation over the REST client that succeeds was made for a tenant that the policy
    -- engine let pass, and its answer is what the server gave, with status 200 and within the limit
    -- on a body, to a GET of the path of the one request that the input stands for.
    pub run-IsTold :
        {P : Type 0} (d : AgentDeps W P) (tenant : Option TenantContext) (c : Call) (w : W)
        (out : R)
        → (run d (query http codec base) tenant c w).0 ≡ ok out
        → IsTold d tenant c w out
    run-IsTold d tenant c w out h = elim (run-IsAsked d (query http codec base) tenant c w) [
      | inl (e, no_tenant, stopped) ↦ absurd (ground arith)
      | inr asked ↦ elim asked.answer [
        | inl (e, unread, stopped) ↦ absurd (ground arith)
        | inr (request, is, same) ↦ record {
          owner = asked.owner;
          tenant_is = asked.tenant_is;
          request = request;
          is_request = is;
          served =
              query-IsServed request (authorize d tenant w).1 out (ap (λ p. p.0) (sym same) ∙ h);
        }
      ]
    ]

    -- A broadcast over the REST client that succeeds was a POST of these transaction bytes, and its
    -- result is the one in the server's answer, which was there and had status 200.
    pub broadcast_sync-IsServed :
        (tx : Bytes) (w : W) (out : BroadcastResult)
        → (broadcast_sync http codec base tx w).0 ≡ ok out
        → IsServed codec.broadcast_response
            (method_post (broadcast_body tx))
            (base <> "/cosmos/tx/v1beta1/txs")
            w
            (some out)
    unfolding broadcast_sync
    broadcast_sync-IsServed tx w out h =
        let url = base <> "/cosmos/tx/v1beta1/txs" in
        elim (Result-cases (http.new_request (method_post (broadcast_body tx)) url)) [
          | inr (x, p) ↦ absurd (ground arith)
          | inl (req, p) ↦ elim (Result-cases (do_request http codec.broadcast_response req w).0) [
            | inr (x, q) ↦ absurd (ground arith)
            | inl (none, q) ↦ absurd (ground arith)
            | inl (some r, q) ↦
                let same : r ≡ out = ground arith in
                do_request-IsServed codec.broadcast_response (method_post (broadcast_body tx)) url
                  req w (some out) p (rw same at q)
          ]
        ]
