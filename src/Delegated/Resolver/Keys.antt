-- ===== src/Delegated/Resolver/Keys.antt =====
-- Whose keys may sign for an agent id.
use svpchain_research_agent.Base.{
  ◌≡◌, refl, ◌⊎◌, inl, inr, String, List, [], ◌∷◌, Option, none, some, ok, Bytes, M, arith, length,
  cut_prefix, Option-cases, nat_eq, bytes_eq,
}
use svpchain_research_agent.Base.Results.{Result-cases}
use svpchain_research_agent.Delegated.{Deps}
use svpchain_research_agent.Delegated.Resolver.{registered_key, account_key, public_keys}

module _ {W O X : Type 0} (d : Deps W O X) where
  -- The key that an account has published, for an id that names the account.
  pub record IsPublished (id : String) (w : W) (key : Bytes) : Type 0 where
    pub query : String → M W Bytes
    pub configured : d.auth_q ≡ some query
    pub address : String
    pub named : cut_prefix id d.did_prefix ≡ some address
    pub answered : (query address w).0 ≡ ok key
    pub right_length : length key ≡ d.dt.pub_key_len

  account_key-IsPublished :
      (o : Option (String → M W Bytes)) (b : Option String) (id : String) (w : W)
      (keys : List Bytes)
      → d.auth_q ≡ o
      → cut_prefix id d.did_prefix ≡ b
      → (account_key d o b w).0 ≡ ok keys
      → (key : Bytes) × (keys ≡ key ∷ []) × IsPublished id w key
  account_key-IsPublished none b id w keys o p h = cc
  account_key-IsPublished (some q) none id w keys o p h = cc
  account_key-IsPublished (some q) (some address) id w keys o p h =
      elim (Result-cases (q address w).0) [
        | inr (x, r) ↦ absurd (ground arith)
        | inl (key, r) ↦ (
          key,
          ground arith,
          record {
            query = q;
            configured = o;
            address = address;
            named = p;
            answered = r;
            right_length = ground arith;
          },
        )
      ]

  -- A resolution that succeeds gives exactly one key: the registered agent's, where the registry
  -- answers one that is not empty; and otherwise the key, of the right length, that the account has
  -- published which the id names after its prefix.
  pub public_keys-resolves :
      (id : String) (w : W) (keys : List Bytes)
      → (public_keys d id w).0 ≡ ok keys
      → (key : Bytes) × (keys ≡ key ∷ [])
        × ((registered_key (d.query_agent id w).0 ≡ some key)
            ⊎ ((registered_key (d.query_agent id w).0 ≡ none)
                × IsPublished id (d.query_agent id w).1 key))
  unfolding public_keys
  public_keys-resolves id w keys h = elim (Option-cases (registered_key (d.query_agent id w).0)) [
    | inr (key, q) ↦ (key, ground arith, inl q)
    | inl q ↦
        let (key, one, published) =
          account_key-IsPublished d.auth_q (cut_prefix id d.did_prefix) id (d.query_agent id w).1
            keys refl refl (ground arith) in
        (key, one, inr (q, published))
  ]
