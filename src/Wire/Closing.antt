-- ===== src/Wire/Closing.antt =====
-- internal/wire/wire.go: the connection of a build.
use svpchain_research_agent.Base.{
  ℕ, suc, ◌≡◌, refl, ◌⊎◌, inl, inr, String, Option, Result, ok, err, Error, wrap, [], arith,
}
use svpchain_research_agent.Base.Results.{Result-cases}
use svpchain_research_agent.Config.{AgentConfig}
use svpchain_research_agent.Operator.{PrivKey, load}
use svpchain_research_agent.Wire.{App, Outside, delegation_profile, delegated_config, build_profile}
use svpchain_research_agent.Toolbridge.Families.{new_empty}

module _ {S A : Type 0} (out : Outside S A) where
  -- The connection, the client and the store of the transfer cap were all to be had. The app has
  -- one more connection open, an empty registry, and its service is the one of the operator key
  -- that is configured, if there is one.
  pub record IsBuilt (cfg : AgentConfig) (n : ℕ) (r : Result (App S A) × ℕ) (app : App S A)
      : Type 0 where
    pub one_open : r.1 ≡ suc n
    pub dialled : out.dial cfg.dex_chain.grpc_addr ≡ ok tt
    pub has_client : out.new_comet_client cfg.dex_chain.comet_rpc_url ≡ ok tt
    pub has_store : out.load_transfer_out_store cfg.transfer_out_cap_path ≡ ok tt
    pub empty : app.registry ≡ new_empty
    pub key : Option (PrivKey × String)
    pub is_key : load out.key_source cfg.operator.key_file ≡ ok key
    pub delegated : app.delegated ≡ delegated_config cfg key

  -- A build with the delegation profile that fails leaves no connection open that was not open
  -- before; one that succeeds leaves its own, serves no operation, and has the service of the
  -- operator key that is configured, if there is one.
  pub build_profile-closes :
      (cfg : AgentConfig) (n : ℕ)
      → ((e : Error) × (build_profile out delegation_profile cfg n ≡ (err e, n)))
        ⊎ ((app : App S A) × ((build_profile out delegation_profile cfg n).0 ≡ ok app)
            × IsBuilt cfg n (build_profile out delegation_profile cfg n) app)
  unfolding build_profile
  build_profile-closes cfg n = elim (Result-cases (out.dial cfg.dex_chain.grpc_addr)) [
    | inr (e, q) ↦ inl (wrap "dial chain gRPC: %w" [] e, ground arith)
    | inl (u, q) ↦ elim (Result-cases (out.new_comet_client cfg.dex_chain.comet_rpc_url)) [
      | inr (e, r) ↦ inl (wrap "cometbft client: %w" [] e, ground arith)
      | inl (u₁, r) ↦ elim (Result-cases (out.load_transfer_out_store cfg.transfer_out_cap_path)) [
        | inr (e, t) ↦ inl (wrap "load transfer-out cap state: %w" [] e, ground arith)
        | inl (u₂, t) ↦ elim (Result-cases (load out.key_source cfg.operator.key_file)) [
          | inr (e, k) ↦ inl (e, ground arith)
          | inl (key, k) ↦ inr (
            record { registry = new_empty; delegated = delegated_config cfg key },
            ground arith,
            record {
              one_open = ground arith;
              dialled = q;
              has_client = r;
              has_store = t;
              empty = refl;
              key = key;
              is_key = k;
              delegated = refl;
            },
          )
        ]
      ]
    ]
  ]

  -- A build of which every part is there succeeds.
  pub build_profile-succeeds :
      (cfg : AgentConfig) (key : Option (PrivKey × String)) (n : ℕ)
      → out.dial cfg.dex_chain.grpc_addr ≡ ok tt
      → out.new_comet_client cfg.dex_chain.comet_rpc_url ≡ ok tt
      → out.load_transfer_out_store cfg.transfer_out_cap_path ≡ ok tt
      → load out.key_source cfg.operator.key_file ≡ ok key
      → build_profile out delegation_profile cfg n
        ≡ (ok (record { registry = new_empty; delegated = delegated_config cfg key }), suc n)
  unfolding build_profile
  build_profile-succeeds cfg key n dialled has_client has_store is_key = ground arith
