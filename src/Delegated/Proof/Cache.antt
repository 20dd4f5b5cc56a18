-- ===== src/Delegated/Proof/Cache.antt =====
-- The cache of the wallet parameters.
use svpchain_research_agent.Base.{
  ◌≡◌, ◌⊎◌, inl, inr, true, false, some, none, ok, arith, ltb_ℤ, sub64, Option-cases,
}
use svpchain_research_agent.Delegated.{Deps, Service, Params}
use svpchain_research_agent.Delegated.Proof.{wallet_params, fetch_params}

module _ {W O X : Type 0} (d : Deps W O X) where
  -- The clock reading that the next call makes is within the cache's lifetime.
  abbrev pub IsFresh : Service W → Type 0
  IsFresh s = ltb_ℤ (sub64 (d.now s.world).0 s.params_fetched) s.params_cache_ttl ≡ true

  -- The service after a clock reading that changed nothing else.
  abbrev pub ticked : Service W → Service W
  ticked s = record s { world = (d.now s.world).1 }

  -- A cached answer is given again, with no query, while it is fresh.
  pub wallet_params_hit :
      (s : Service W) (p : Params)
      → s.cached_params ≡ some p
      → IsFresh s
      → wallet_params d s ≡ (ok p, ticked s)
  unfolding wallet_params
  wallet_params_hit s p c f = ground arith

  fetch_params-cached :
      (s s' : Service W) (p : Params) → fetch_params d s ≡ (ok p, s') → s'.cached_params ≡ some p
  unfolding fetch_params
  fetch_params-cached s s' p h = ground arith

  wallet_params-cached :
      (s s' : Service W) (p : Params) → wallet_params d s ≡ (ok p, s') → s'.cached_params ≡ some p
  unfolding wallet_params
  wallet_params-cached s s' p h = ground arith

  -- After a successful call, a second one made while the answer is fresh gives the same parameters
  -- and asks the chain nothing: only the clock is read.
  pub wallet_params_again :
      (s s' : Service W) (p : Params)
      → wallet_params d s ≡ (ok p, s')
      → IsFresh s'
      → wallet_params d s' ≡ (ok p, ticked s')
  wallet_params_again s s' p h f = wallet_params_hit s' p (wallet_params-cached s s' p h) f

  -- Where nothing is cached, or what is cached has run out, a success is the answer that the chain
  -- gave to a query made now, stamped with the clock reading that followed it.
  pub wallet_params_miss :
      (s s' : Service W) (p : Params)
      → ((s.cached_params ≡ none)
          ⊎ (ltb_ℤ (sub64 (d.now s.world).0 s.params_fetched) s.params_cache_ttl ≡ false))
      → wallet_params d s ≡ (ok p, s')
      → (w : W) × ((d.wallet_params w).0 ≡ ok p)
        × (s'.params_fetched ≡ (d.now (d.wallet_params w).1).0)
  unfolding wallet_params fetch_params
  wallet_params_miss s s' p (inl c) h = (s.world, ground arith, ground arith)
  wallet_params_miss s s' p (inr f) h = elim (Option-cases s.cached_params) [
    | inl c ↦ (s.world, ground arith, ground arith)
    | inr (q, c) ↦ ((d.now s.world).1, ground arith, ground arith)
  ]
