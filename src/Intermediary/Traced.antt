-- ===== src/Intermediary/Traced.antt =====
-- The agent with a record kept beside it of what leaves the process: every call of the recorder and
-- of the sender is written down, whatever comes of it. What the agent does is not changed by it.
use mathlib.Core.Option.{some-injective}
use svpchain_research_agent.Base.{
  ◌≡◌, refl, ap, sym, inl, inr, String, List, [], ◌∷◌, Option, none, some, Result, Bytes, M, ℤ, pos,
  ltb_ℤ, Bool-cases, arith,
}
use svpchain_research_agent.Base.Results.{Result-cases}
use svpchain_research_agent.Svpdt.{Caveats, Token}
use svpchain_research_agent.Agentchain.Coin.{Coin}
use svpchain_research_agent.Delegated.Execute.{ExecResult}
use svpchain_research_agent.Delegated.Settlement.{ExecRecordSpendInput}
use svpchain_research_agent.Intermediary.Log.{Event, charged, forwarded, IsLog, fee_request}
use svpchain_research_agent.Intermediary.{
  Config, ForwardInput, NarrowSpec, narrow_expires, narrow, charge_with, charge, admit, mint,
  forward, to_dt_coins, narrow_actions, narrow_coins, last_of, child_params, forwarded_chain,
}

module _ {S : Type 0} where
  -- An operation that writes nothing down, and one that writes down an event.
  abbrev pub unwritten : {A : Type 0} → M S A → M (S × List Event) A
  unwritten m t = ((m t.0).0, ((m t.0).1, t.1))

  abbrev pub written : {A : Type 0} → Event → M S A → M (S × List Event) A
  written e m t = ((m t.0).0, ((m t.0).1, e ∷ t.1))

  abbrev pub forget : {A : Type 0} → Result A × (S × List Event) → Result A × S
  forget (r, t) = (r, t.0)

  -- The same answers, and the same state but for what is written down.
  abbrev pub Keeps : {A : Type 0} → M S A → M (S × List Event) A → Type 0
  Keeps m m' = (t : S × List Event) → forget (m' t) ≡ m t.0

module _ {S O : Type 0} (cfg : Config S O) where
  abbrev traced_spend :
      Option (ExecRecordSpendInput → M S ExecResult)
      → Option (ExecRecordSpendInput → M (S × List Event) ExecResult)
  traced_spend none = none
  traced_spend (some recorder) = some (λ r. written (charged r) (recorder r))

  abbrev pub traced : Config (S × List Event) O
  traced = record {
    agent_id = cfg.agent_id;
    verify = λ p. unwritten (cfg.verify p);
    send = λ e b ts. written (forwarded e b ts) (cfg.send e b ts);
    spend = traced_spend cfg.spend;
    now = unwritten cfg.now;
    draw_nonce = unwritten cfg.draw_nonce;
    attenuate = λ a. unwritten (cfg.attenuate a);
    allows = cfg.allows;
    constrained_to = cfg.constrained_to;
    new_string_set = cfg.new_string_set;
    new_uint32_set = cfg.new_uint32_set;
    new_coins = cfg.new_coins;
  }

  abbrev pub events : S × List Event → List Event
  events t = t.1

  traced_spend-charged :
      (o : Option (ExecRecordSpendInput → M S ExecResult))
      (spend : ExecRecordSpendInput → M (S × List Event) ExecResult) (r : ExecRecordSpendInput)
      (t : S × List Event)
      → traced_spend o ≡ some spend
      → events (spend r t).1 ≡ charged r ∷ events t
  traced_spend-charged none spend r t h = absurd (ground arith)
  traced_spend-charged (some recorder) spend r t h =
      let same = some-injective _ _ h in ap (λ f. events (f r t).1) (sym same)

  pub traced-IsLog : IsLog traced events
  traced-IsLog = record {
    still = record {
      verify_still = λ p s. refl;
      now_still = λ s. refl;
      nonce_still = λ s. refl;
      attenuate_still = λ a s. refl;
    };
    send_logs = λ e b ts s. refl;
    spend_logs = λ spend r t h. traced_spend-charged cfg.spend spend r t h;
  }

  same_coins : (c : Coin) → to_dt_coins traced c ≡ to_dt_coins cfg c
  unfolding to_dt_coins
  same_coins c = refl

  narrow_expires-Keeps :
      (held ttl : ℤ) → Keeps (narrow_expires cfg held ttl) (narrow_expires traced held ttl)
  unfolding narrow_expires
  narrow_expires-Keeps held ttl t = elim (Bool-cases (ltb_ℤ (pos 0) ttl)) [
    | inl q ↦ elim (Result-cases (cfg.now t.0).0) [
      | inr (e, r) ↦ ground arith
      | inl (n, r) ↦ ground arith
    ]
    | inr q ↦ ground arith
  ]

  narrow-Keeps :
      (parent : Caveats O) (spec : NarrowSpec)
      → Keeps (narrow cfg parent spec) (narrow traced parent spec)
  unfolding narrow to_dt_coins
  narrow-Keeps parent spec t =
      let last = narrow_expires-Keeps parent.expires spec.ttl_seconds t in
      elim (Result-cases (cfg.constrained_to [])) [
        | inr (x, q) ↦ ground arith
        | inl (e, q) ↦ elim (Result-cases (narrow_actions cfg parent.actions spec.actions)) [
          | inr (x, r) ↦ ground arith
          | inl (a, r) ↦
              elim (Result-cases (narrow_coins cfg "narrow budget: %w" parent.budget spec.budget)) [
                | inr (x, t₁) ↦ ground arith
                | inl (b, t₁) ↦
                    elim (Result-cases (
                      narrow_coins cfg "narrow svc_budget: %w" parent.svc_budget spec.svc_budget)) [
                        | inr (x, u) ↦ ground arith
                        | inl (v, u) ↦
                            elim (Result-cases
                              (narrow_expires cfg parent.expires spec.ttl_seconds t.0).0) [
                                | inr (x, w) ↦ ground arith
                                | inl (z, w) ↦ ground arith
                              ]
                      ]
              ]
        ]
      ]

  charge_with-Keeps :
      (o : Option (ExecRecordSpendInput → M S ExecResult)) (proof : List String) (fee : Option Coin)
      → Keeps (charge_with cfg o proof fee) (charge_with traced (traced_spend o) proof fee)
  unfolding charge_with
  charge_with-Keeps o proof none t = refl
  charge_with-Keeps none proof (some fee) t = refl
  charge_with-Keeps (some recorder) proof (some fee) t =
      elim (Result-cases (recorder (fee_request proof fee) t.0).0) [
        | inr (x, q) ↦ ground arith
        | inl (r, q) ↦ ground arith
      ]

  charge-Keeps :
      (proof : List String) (fee : Option Coin)
      → Keeps (charge cfg proof fee) (charge traced proof fee)
  unfolding charge
  charge-Keeps proof fee = charge_with-Keeps cfg.spend proof fee

  admit-Keeps : (req : ForwardInput) → Keeps (admit cfg req) (admit traced req)
  unfolding admit
  admit-Keeps req t = elim (Result-cases (cfg.verify req.proof t.0).0) [
    | inr (x, q) ↦ ground arith
    | inl ((ts, w), q) ↦ elim (Result-cases (last_of w.tokens)) [
      | inr (x, r) ↦ ground arith
      | inl (l, r) ↦ ground arith
    ]
  ]

  mint-Keeps :
      (req : ForwardInput) (tokens : List Bytes) (leaf : Token O)
      → Keeps (mint cfg req tokens leaf) (mint traced req tokens leaf)
  unfolding mint
  mint-Keeps req tokens leaf t =
      let first = narrow-Keeps leaf.payload.caveats req.narrow t in
      let n = narrow cfg leaf.payload.caveats req.narrow t.0 in
      elim (Result-cases n.0) [
        | inr (x, q) ↦ ground arith
        | inl (c, q) ↦ elim (Result-cases (last_of tokens)) [
          | inr (x, r) ↦ ground arith
          | inl (p, r) ↦ elim (Result-cases (cfg.draw_nonce n.1).0) [
            | inr (x, u) ↦ ground arith
            | inl (k, u) ↦
                elim (Result-cases
                  (cfg.attenuate (child_params cfg req p c k) (cfg.draw_nonce n.1).1).0) [
                    | inr (x, w) ↦ ground arith
                    | inl (y, w) ↦ ground arith
                  ]
          ]
        ]
      ]

  -- The task has the same answer, and leaves the same state.
  pub forward-Keeps : (req : ForwardInput) → Keeps (forward cfg req) (forward traced req)
  unfolding forward
  forward-Keeps req t =
      let admitted = admit-Keeps req t in
      let s₁ = (admit cfg req t.0).1 in
      elim (Result-cases (admit cfg req t.0).0) [
        | inr (x, q) ↦ ground arith
        | inl ((ts, v, l), q) ↦
            let charged_too = charge-Keeps req.proof req.fee (admit traced req t).1 in
            let s₂ = (charge cfg req.proof req.fee s₁).1 in
            elim (Result-cases (charge cfg req.proof req.fee s₁).0) [
              | inr (x, r) ↦ ground arith
              | inl (f, r) ↦
                  let minted =
                    mint-Keeps req ts l
                      (charge traced req.proof req.fee (admit traced req t).1).1 in
                  elim (Result-cases (mint cfg req ts l s₂).0) [
                    | inr (x, u) ↦ ground arith
                    | inl ((c, b), u) ↦
                        elim (Result-cases
                          (cfg.send req.downstream_endpoint req.envelope (forwarded_chain cfg req b)
                            (mint cfg req ts l s₂).1).0) [
                              | inr (x, w) ↦ ground arith
                              | inl (reply, w) ↦ ground arith
                            ]
                  ]
            ]
      ]
