-- ===== src/Config/Laws.antt =====
-- What a loaded configuration is good for.
use svpchain_research_agent.Base.{
  ℕ, ℤ, ◌≡◌, ◌≢◌, ◌↔◌, sym, refl, inl, inr, Bool, true, false, String, Option, some, ok, arith,
  eq_iff, is_negative, Bool-cases, Option-cases, not, ◌&&◌, ◌<>◌, if◌then◌else◌, ◌==◌, string_eq,
  nat_eq,
}
use svpchain_research_agent.Base.Results.{Result-cases}
use svpchain_research_agent.Config.{
  FeeConfig, AgentConfig, is_enabled, or_default, differ, fee_defaults, apply_defaults,
  validate_fee, validate, Files, with_paths, load_file,
}

filled : (s : String) → not (s == "") ≡ true → s ≢ ""
filled s h = ground (arith, eq_iff s "")

-- Filling an empty text from `x`, under a condition that stays, happens once.
filled_once :
    (x y : String) (b : Bool)
    → (if (if y == "" && b then x else y) == "" && b then x else if y == "" && b then x else y)
      ≡ (if y == "" && b then x else y)
filled_once x y b = elim (Bool-cases (y == "" && b)) [
  | inl empty ↦ ground arith
  | inr full ↦ ground arith
]

or_default-again :
    (set default : String) → or_default (or_default set default) default ≡ or_default set default
or_default-again set default = elim (Bool-cases (set == "")) [
  | inl empty ↦ ground arith
  | inr full ↦ ground arith
]

gas_again :
    (g : ℕ)
    → (if (if g == 0 then 1000000 else g) == 0 then 1000000 else if g == 0 then 1000000 else g)
      ≡ (if g == 0 then 1000000 else g)
gas_again g = elim (Bool-cases (g == 0)) [ inl empty ↦ ground arith | inr full ↦ ground arith ]

fee_defaults_again : (f : FeeConfig) → fee_defaults (fee_defaults f) ≡ fee_defaults f
unfolding fee_defaults
fee_defaults_again f =
    rw
      (
        or_default-again f.denom "asvp",
        or_default-again f.amount "25000000000000000",
        gas_again f.gas_limit,
      )
      refl

-- Defaults fill what is missing: applying them to what they gave changes nothing.
pub apply_defaults_again : (c : AgentConfig) → apply_defaults (apply_defaults c) ≡ apply_defaults c
unfolding apply_defaults
apply_defaults_again c =
    rw
      (
        fee_defaults_again c.fee,
        or_default-again c.broadcast_mode "server",
        filled_once ("http://localhost" <> c.listen_addr) c.public_url (not (c.listen_addr == "")),
      )
      refl

module _ (int_from_string : String → Option ℤ) where
  pub record IsUsable (c : AgentConfig) : Type 0 where
    pub chain_id : c.dex_chain.id ≢ ""
    pub grpc : c.dex_chain.grpc_addr ≢ ""
    pub comet : c.dex_chain.comet_rpc_url ≢ ""
    pub indexer : c.dex_chain.indexer_base_url ≢ ""
    pub listens : c.listen_addr ≢ ""
    pub together : (is_enabled c.agent_chain ≡ true) ↔ (c.agent_chain.id ≢ "")
    pub fee_denom : c.fee.denom ≢ ""
    pub fee_amount : ℤ
    pub is_fee : int_from_string c.fee.amount ≡ some fee_amount
    pub not_negative : is_negative fee_amount ≡ false

  validate_fee-eq-ok :
      (f : FeeConfig)
      → validate_fee int_from_string f ≡ ok tt
      → (f.denom ≢ "")
        × (amount : ℤ) × (int_from_string f.amount ≡ some amount)
        × (is_negative amount ≡ false)
  unfolding validate_fee
  validate_fee-eq-ok f h = elim (Option-cases (int_from_string f.amount)) [
    | inl q ↦ absurd (ground arith)
    | inr (amount, q) ↦ (filled f.denom (ground arith), amount, q, ground arith)
  ]

  together_of :
      (c : AgentConfig)
      → not (differ (c.agent_chain.id == "") (c.agent_chain.rest_url == "")) ≡ true
      → (is_enabled c.agent_chain ≡ true) ↔ (c.agent_chain.id ≢ "")
  unfolding is_enabled
  together_of c h =
      (λ t. filled c.agent_chain.id (ground arith), λ n. ground (arith, eq_iff c.agent_chain.id ""))

  validate-IsUsable : (c : AgentConfig) → validate int_from_string c ≡ ok tt → IsUsable c
  unfolding validate
  validate-IsUsable c h =
      let (denom, amount, parsed, positive) = validate_fee-eq-ok c.fee (ground arith) in
      record {
        chain_id = filled c.dex_chain.id (ground arith);
        grpc = filled c.dex_chain.grpc_addr (ground arith);
        comet = filled c.dex_chain.comet_rpc_url (ground arith);
        indexer = filled c.dex_chain.indexer_base_url (ground arith);
        listens = filled c.listen_addr (ground arith);
        together = together_of c (ground arith);
        fee_denom = denom;
        fee_amount = amount;
        is_fee = parsed;
        not_negative = positive;
      }

  -- A configuration that loads has an id and endpoints for its chain and an address to listen at;
  -- an agent chain is configured by both its id and its URL, or by neither; its fee is a
  -- denomination and an integer that is not negative; and it is the decoded file with the defaults
  -- filled in and the relative paths resolved.
  pub load_file-IsUsable :
      (fs : Files) (path : String) (c : AgentConfig)
      → load_file int_from_string fs path ≡ ok c
      → IsUsable c
        × (raw : AgentConfig) × (fs.decode_file path ≡ ok raw)
        × (c ≡ with_paths fs path (apply_defaults raw))
  unfolding load_file
  load_file-IsUsable fs path c h = elim (Result-cases (fs.decode_file path)) [
    | inr (x, q) ↦ absurd (ground arith)
    | inl (raw, q) ↦
        elim (Result-cases (validate int_from_string (with_paths fs path (apply_defaults raw)))) [
          | inr (x, r) ↦ absurd (ground arith)
          | inl (u, r) ↦
              let same : with_paths fs path (apply_defaults raw) ≡ c = ground arith in
              (
                rw (← same) (validate-IsUsable (with_paths fs path (apply_defaults raw)) r),
                raw,
                q,
                sym same,
              )
        ]
  ]
