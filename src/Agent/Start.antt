-- ===== src/Agent/Start.antt =====
-- cmd/svpchain-research-agent/main.go: what a start that reaches the server serves.
use svpchain_research_agent.Base.{
  ℕ, ◌≡◌, ◌≢◌, false, ap, ◌∙◌, ◌⊎◌, inl, inr, String, [], none, some, ok, err, Error, wrap, errorf,
  arith, refl, ◌==◌, string_eq, Bool-cases, ◌<>◌, if◌then◌else◌, eqb-false, neq-eqb,
}
use svpchain_research_agent.Base.Results.{Result-cases}
use svpchain_research_agent.Config.{AgentConfig, load_file, is_enabled}
use svpchain_research_agent.Config.Laws.{load_file-IsUsable}
use svpchain_research_agent.Operator.{PrivKey, load}
use svpchain_research_agent.Wire.{
  DelegatedConfig, delegation_profile, delegated_config, build_profile, agent_chain_id, close_app,
}
use svpchain_research_agent.Wire.Closing.{build_profile-closes, build_profile-succeeds}
use svpchain_research_agent.Agent.{Running, Host, serve_app, run}
use svpchain_research_agent.Base.{M, Option-cases}
use svpchain_research_agent.Base.State.{◌>>=◌}

module _ {G S A : Type 0} (host : Host G S A) where
  abbrev url_of : String → String → String
  url_of listen_addr public_url =
      if public_url == "" then "http://127.0.0.1" <> listen_addr else public_url

  -- The configuration was read and is usable, the chain, its client and the store of the transfer
  -- cap were to be had, and one operator key is the signer of credentials, the identity that is
  -- served, and the key of the service that verifies and records. The server listens where it was
  -- told to, and names itself by the public URL, or by the local one if none was given.
  pub record IsStarted (config_path listen_addr public_url : String) (r : Running G) : Type 0 where
    pub has_config : config_path ≢ ""
    pub cfg : AgentConfig
    pub loaded : load_file host.int_from_string host.files config_path ≡ ok cfg
    pub priv : PrivKey
    pub operator : String
    pub is_key : load host.outside.key_source cfg.operator.key_file ≡ ok (some (priv, operator))
    pub signer : host.new_private_key_signer priv ≡ ok r.signer
    pub identity : host.agent_id_from_operator operator ≡ ok r.agent_id
    pub service : delegated_config cfg (some (priv, operator)) ≡ some r.delegated
    pub has_chain : r.delegated.chain_id ≢ ""
    pub dialled : host.outside.dial cfg.dex_chain.grpc_addr ≡ ok tt
    pub has_client : host.outside.new_comet_client cfg.dex_chain.comet_rpc_url ≡ ok tt
    pub has_store : host.outside.load_transfer_out_store cfg.transfer_out_cap_path ≡ ok tt
    pub listens : listen_addr ≡ r.listen_addr
    pub names : url_of listen_addr public_url ≡ r.public_url
    pub served : host.serve r ≡ ok tt

  chain-present :
      (cfg : AgentConfig) (path : String)
      → load_file host.int_from_string host.files path ≡ ok cfg
      → agent_chain_id cfg ≢ ""
  unfolding agent_chain_id
  chain-present cfg path h =
      let usable = (load_file-IsUsable host.int_from_string host.files path cfg h).0 in
      elim (Bool-cases (is_enabled cfg.agent_chain)) [
        | inl q ↦ rw q (usable.together.0 q)
        | inr q ↦ rw q usable.chain_id
      ]

  service-chain :
      (cfg : AgentConfig) (priv : PrivKey) (operator : String) (c : DelegatedConfig)
      → delegated_config cfg (some (priv, operator)) ≡ some c
      → agent_chain_id cfg ≡ c.chain_id
  unfolding delegated_config
  service-chain cfg priv operator c h = ground arith

  -- The build and the server, once the key is there.
  module _ (cfg : AgentConfig) (priv : PrivKey) (operator id : String) (signer : G)
      (listen_addr public_url : String) where
    abbrev running : DelegatedConfig → Running G
    running c = record {
      agent_id = id;
      signer = signer;
      delegated = c;
      listen_addr = listen_addr;
      public_url = public_url;
    }

    abbrev rest : M ℕ (Unit {0})
    rest = build_profile host.outside delegation_profile cfg >>= λ app.
        λ m. (serve_app host app.delegated id signer listen_addr public_url, close_app m)

    abbrev IsReached : Type 0
    IsReached =
        (host.outside.dial cfg.dex_chain.grpc_addr ≡ ok tt)
        × (host.outside.new_comet_client cfg.dex_chain.comet_rpc_url ≡ ok tt)
        × (host.outside.load_transfer_out_store cfg.transfer_out_cap_path ≡ ok tt)

    rest-serves :
        (n : ℕ)
        → load host.outside.key_source cfg.operator.key_file ≡ ok (some (priv, operator))
        → ((e : Error) × (rest n ≡ (err e, n)))
          ⊎ ((c : DelegatedConfig) × IsReached
              × (delegated_config cfg (some (priv, operator)) ≡ some c)
              × (host.serve (running c) ≡ ok tt)
              × (rest n ≡ (ok tt, n)))
    unfolding delegated_config
    rest-serves n k = elim (build_profile-closes host.outside cfg n) [
      | inl (e, b) ↦ inl (e, ground arith)
      | inr (app, b, built) ↦
          let key : built.key ≡ some (priv, operator) = ground (arith, built.is_key) in
          let service : app.delegated ≡ delegated_config cfg (some (priv, operator)) =
            built.delegated ∙ ap (delegated_config cfg) key in
          let open_one = built.one_open in
          elim (Option-cases (delegated_config cfg (some (priv, operator)))) [
            | inl none_there ↦ absurd (cc none_there)
            | inr (c, is) ↦ elim (Result-cases (host.serve (running c))) [
              | inr (e, v) ↦ inl (e, ground arith)
              | inl (u, v) ↦ inr (
                c,
                (built.dialled, built.has_client, built.has_store),
                is,
                ground arith,
                ground arith,
              )
            ]
          ]
    ]

  run-reaches :
      (config_path listen_addr public_url : String) (n : ℕ)
      → ((e : Error) × (run host config_path listen_addr public_url n ≡ (err e, n)))
        ⊎ ((r : Running G) × IsStarted config_path listen_addr public_url r
            × (run host config_path listen_addr public_url n ≡ (ok tt, n)))
  unfolding run
  run-reaches config_path listen_addr public_url n = elim (Bool-cases (config_path == "")) [
    | inl q ↦ inl (
      errorf
          "-config is required: this agent needs an operator key to sign the credentials it issues"
          [],
      ground arith,
    )
    | inr q ↦ elim (Result-cases (load_file host.int_from_string host.files config_path)) [
      | inr (e, r) ↦ inl (e, ground arith)
      | inl (cfg, r) ↦ elim (Result-cases (load host.outside.key_source cfg.operator.key_file)) [
        | inr (e, k) ↦ inl (e, ground arith)
        | inl (none, k) ↦ inl (
          errorf
              "no operator key configured: an intermediary must sign the credentials it passes on"
              [],
          ground arith,
        )
        | inl (some (priv, operator), k) ↦ elim (Result-cases (host.new_private_key_signer priv)) [
          | inr (e, g) ↦ inl (wrap "build credential signer: %w" [] e, ground arith)
          | inl (signer, g) ↦ elim (Result-cases (host.agent_id_from_operator operator)) [
            | inr (e, i) ↦ inl (e, ground arith)
            | inl (id, i) ↦
                let url = url_of listen_addr public_url in
                let same : run host config_path listen_addr public_url n
                    ≡ rest cfg priv operator id signer listen_addr url n =
                  ground arith in
                elim (rest-serves cfg priv operator id signer listen_addr url n k) [
                  | inl (e, failed) ↦ inl (e, same ∙ failed)
                  | inr (c, reached, is, served, ended) ↦ inr (
                    running cfg priv operator id signer listen_addr url c,
                    record {
                      has_config = eqb-false config_path "" q;
                      cfg = cfg;
                      loaded = r;
                      priv = priv;
                      operator = operator;
                      is_key = k;
                      signer = g;
                      identity = i;
                      service = is;
                      has_chain = λ nameless.
                          chain-present cfg config_path r
                            (service-chain cfg priv operator c is ∙ nameless);
                      dialled = reached.0;
                      has_client = reached.1;
                      has_store = reached.2;
                      listens = refl;
                      names = refl;
                      served = served;
                    },
                    same ∙ ended,
                  )
                ]
          ]
        ]
      ]
    ]
  ]

  IsStarted-run :
      (config_path listen_addr public_url : String) (r : Running G) (n : ℕ)
      → IsStarted config_path listen_addr public_url r
      → run host config_path listen_addr public_url n ≡ (ok tt, n)
  unfolding run
  IsStarted-run config_path listen_addr public_url r n started =
      let is_there : (config_path == "") ≡ false = neq-eqb config_path "" started.has_config in
      let built =
        build_profile-succeeds host.outside started.cfg (some (started.priv, started.operator)) n
          started.dialled started.has_client started.has_store started.is_key in
      rw
        (
          is_there, started.loaded, started.is_key, started.signer, started.identity, built,
          started.service, started.names, started.listens, started.served,
        )
        (ground arith)

  -- A start succeeds exactly where what it needs is there: a usable configuration, one operator
  -- key, and all that the build reaches for. It then serves that key's identity with that key's
  -- signer and service, on a chain that is named; else it fails. Either way, and whenever the
  -- server ends, no connection is left open that was not open before.
  pub run-IsStarted :
      (config_path listen_addr public_url : String) (n : ℕ)
      → ((e : Error) × ((r : Running G) → IsStarted config_path listen_addr public_url r → ⊥)
          × (run host config_path listen_addr public_url n ≡ (err e, n)))
        ⊎ ((r : Running G) × IsStarted config_path listen_addr public_url r
            × (run host config_path listen_addr public_url n ≡ (ok tt, n)))
  run-IsStarted config_path listen_addr public_url n =
      elim (run-reaches config_path listen_addr public_url n) [
        | inr reached ↦ inr reached
        | inl (e, failed) ↦
            let unreached : (r : Running G) → IsStarted config_path listen_addr public_url r → ⊥ =
              λ r started.
                let ended = IsStarted-run config_path listen_addr public_url r n started in
                ground arith in
            inl (e, unreached, failed)
      ]
