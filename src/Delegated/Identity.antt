-- ===== src/Delegated/Identity.antt =====
-- internal/delegated/service.go: the agent's own registration, and who may change it.
pub mod Gate
pub mod Registration
use svpchain_research_agent.Base.{
  Bool, true, false, not, ◌&&◌, String, List, [], ◌∷◌, Option, none, some, Result, ok, err, errorf,
  wrap, no_tenant, str, Bytes, M, ◌==◌, string_eq, null, if◌then◌else◌,
}
use svpchain_research_agent.Base.Hex.{encode_to_string}
use svpchain_research_agent.Base.Results.{map_err}
use svpchain_research_agent.Base.State.{◌>>=◌, ◌>>◌, lift, check, pure, throw, on_error}
use svpchain_research_agent.Chain.{Msg, SdkCoin, register_agent, update_agent}
use svpchain_research_agent.Operator.{sign_tx}
use svpchain_research_agent.Agentchain.Coin.{Coin, to_sdk}
use svpchain_research_agent.Delegated.{
  Deps, Service, AgentRecord, TenantContext, ask, send, agent_id,
}
use svpchain_research_agent.Delegated.Execute.{ExecResult}

pub record IdentityOutput : Type 0 where
  pub operator : String
  pub agent_id : String
  pub registered : Bool
  pub status : String
  pub bond : String
  pub endpoint : String
  pub card_hash : String
  pub registered_capability_hash : String
  pub card_hash_matches : Bool

module _ {W O X : Type 0} (d : Deps W O X) where
  unfoldable pub set_capability_card : Bytes → Service W → Service W
  set_capability_card card_json s = record s { card_hash = d.sha256 card_json }

  unfoldable pub capability_hash : Service W → Result Bytes
  capability_hash s =
      if null s.card_hash
      then err (errorf "agent card bytes not wired; cannot compute a verifiable capability hash" [])
      else ok s.card_hash

  unregistered : Service W → IdentityOutput
  unregistered s = record {
    operator = d.operator;
    agent_id = agent_id d;
    registered = false;
    status = "";
    bond = "";
    endpoint = "";
    card_hash = if null s.card_hash then "" else encode_to_string s.card_hash;
    registered_capability_hash = "";
    card_hash_matches = false;
  }

  registered_as : Service W → AgentRecord → IdentityOutput
  registered_as s a =
      let registered_hash = encode_to_string a.capability_hash in
      record (unregistered s) {
        registered = true;
        status = a.status;
        bond = a.bond;
        endpoint = a.endpoint;
        registered_capability_hash = registered_hash;
        card_hash_matches = not (null s.card_hash) && registered_hash == (unregistered s).card_hash;
      }

  identity_of : Service W → Result (Option AgentRecord) → IdentityOutput
  identity_of s (ok (some a)) = if a.agent_id == "" then unregistered s else registered_as s a
  identity_of s (ok none) = unregistered s
  identity_of s (err e) = unregistered s

  -- An unregistered agent is an answer, not an error.
  unfoldable pub identity : M (Service W) IdentityOutput
  unfolding identity_of unregistered registered_as
  identity s = let (r, s') = ask (d.agent_by_operator d.operator) s in (ok (identity_of s r), s')

  require_tenant : Option TenantContext → String → M (Service W) (Unit {0})
  require_tenant none what = throw no_tenant
  require_tenant (some tc) what = do
    tp ← ask (d.policy_tenant tc.tenant_id)
    check (tp.owner == d.operator) (
        errorf "%s may only be invoked by the operator itself (authenticated as %s, operator is %s)"
          (str what ∷ str tp.owner ∷ str d.operator ∷ []))

  -- `tenant` is what the context carries.
  unfoldable pub require_operator : Option TenantContext → String → M (Service W) (Unit {0})
  unfolding require_tenant
  require_operator tenant what = require_tenant tenant what

  unfoldable pub sign_and_broadcast_own : Msg X → M (Service W) ExecResult
  sign_and_broadcast_own msg = do
    acct ← on_error (wrap "read operator account: %w" []) (ask (d.account d.operator))
    raw ← lift (sign_tx d.codec d.priv d.chain_id acct (msg ∷ []) d.fee false)
    res ← on_error (wrap "broadcast: %w" []) (send d raw)
    pure (record {
      tx_hash = res.tx_hash;
      code = res.code;
      raw_log = res.raw_log;
      agent_id = agent_id d;
      principal = d.operator;
    })

  -- The bond that the caller chose, or the module's minimum.
  initial_bond : Option Coin → M (Service W) SdkCoin
  initial_bond (some bond) =
      lift (map_err (wrap "bond: %w" []) (to_sdk d.codec.int_from_string bond))
  initial_bond none = on_error (wrap "fetch agent params for min bond: %w" []) (ask d.min_bond)

  abbrev pub registration : SdkCoin → Bytes → Msg X
  registration bond cap_hash = register_agent (record {
    owner = d.operator;
    agent_id = agent_id d;
    operator = d.operator;
    public_key = d.priv.pub_key;
    endpoint = d.endpoint;
    capability_hash = cap_hash;
    capabilities = d.capabilities;
    initial_bond = bond;
    metadata = d.metadata;
  })

  unfoldable pub self_register : Option TenantContext → Option Coin → M (Service W) ExecResult
  unfolding initial_bond
  self_register tenant bond_override = do
    require_operator tenant "self-registration escrows the operator's funds and"
    bond ← initial_bond bond_override
    cap_hash ← λ s. (capability_hash s, s)
    lift (d.codec.validate_basic (registration bond cap_hash))
    sign_and_broadcast_own (registration bond cap_hash)

  abbrev pub refresh : Bytes → Msg X
  refresh cap_hash = update_agent (record {
    owner = d.operator;
    agent_id = agent_id d;
    endpoint = d.endpoint;
    capability_hash = cap_hash;
    capabilities = d.capabilities;
    metadata = d.metadata;
  })

  unfoldable pub self_update : Option TenantContext → M (Service W) ExecResult
  self_update tenant = do
    require_operator tenant "self-update rewrites the on-chain registration and"
    cap_hash ← λ s. (capability_hash s, s)
    lift (d.codec.validate_basic (refresh cap_hash))
    sign_and_broadcast_own (refresh cap_hash)
