-- ===== src/Tests.antt =====
-- The theorems at concrete inputs. This module is the world of the tests: a clock that stands at
-- the world's number, a chain that answers the same always, and a credential library that takes
-- every chain and checks membership by equality.
pub mod Delegated
pub mod Agentchain
pub mod Config
pub mod Keys
pub mod Own
pub mod Operator
pub mod Reads
pub mod Intermediary
pub mod Server
pub mod Toolbridge
pub mod Rest
pub mod Start
pub mod Sequence
use svpchain_research_agent.Base.{
  ℕ, ℤ, pos, Bool, true, false, ◌||◌, String, List, [], ◌∷◌, Option, none, some, Result, ok, err,
  errorf, Bytes, M, ◌==◌, string_eq, nat_eq,
}
use svpchain_research_agent.Base.Decimal.{set_string, to_string}
use svpchain_research_agent.Base.Hex.{decode_string, encode_to_string}
use svpchain_research_agent.Base.Results.{or_fail}
use svpchain_research_agent.Svpdt.{
  Caveats, Token, Effective, Verified, VerifyOpts, AttenuateParams, Resolver, Svpdt, DtCoin,
}
use svpchain_research_agent.Chain.{
  Msg, built, register_agent, update_agent, record_spend, claim, exec_delegated, SdkCoin,
  AccountInfo, BroadcastResult,
}
use svpchain_research_agent.Operator.{Codec, PrivKey, AuthInfo, TxRaw}
use svpchain_research_agent.Delegated.{
  Deps, Builder, Params, RootState, AgentRecord, TenantContext, TenantPolicy, Service, new,
}

abbrev has_string : List String → String → Bool
has_string [] a = false
has_string (b ∷ bs) a = b == a || has_string bs a

abbrev has_nat : List ℕ → ℕ → Bool
has_nat [] a = false
has_nat (b ∷ bs) a = b == a || has_nat bs a

abbrev pub operator : String
operator = "svp1operator"

abbrev pub me : String
me = "did:svp:svp1operator"

abbrev pub order_id : String
order_id = "0a0b"

-- A credential for every action that the service has, on the first two subaccounts.
abbrev pub caveats : Caveats (List String)
caveats = record {
  actions =
      "clob.place_order" ∷ "clob.cancel_order" ∷ "clob.batch_cancel"
      ∷ "sending.deposit_to_subaccount" ∷ "settlement.record_spend" ∷ "query.account" ∷ [];
  subaccounts = 0 ∷ 1 ∷ [];
  budget = [];
  svc_budget = [];
  settlement = order_id;
  expires = pos 500;
  redelegable = true;
  redelegate_to = me ∷ "did:svp:svp1other" ∷ [];
}

abbrev pub token : Token (List String)
token = record { payload = record { audience = me; caveats = caveats } }

abbrev pub grant : Verified (List String)
grant = record {
  tokens = token ∷ token ∷ [];
  effective = record {
    actions = caveats.actions;
    subaccounts = caveats.subaccounts;
    settlement = order_id;
  };
  principal = "svp1alice";
  root = 9 ∷ [];
  root_epoch = 3;
  leaf_exp = pos 500;
  chain_hash = 1 ∷ 2 ∷ 3 ∷ 4 ∷ 5 ∷ 6 ∷ 7 ∷ 8 ∷ 9 ∷ [];
}

abbrev pub dt : Svpdt ℕ (List String)
dt = record {
  allows = has_string;
  constrained_to = λ xs. ok xs;
  has = has_string;
  has_uint32 = has_nat;
  new_string_set = λ xs. ok xs;
  new_uint32_set = λ xs. xs;
  new_coins = λ cs. ok cs;
  verify_chain = λ tokens keys opts w. (ok grant, w);
  attenuate = λ p w.
      (ok (record { payload = record { audience = p.audience; caveats = p.caveats } }, 7 ∷ []), w);
  pub_key_len = 33;
}

abbrev inside : Msg String → Msg String
inside (exec_delegated e a ts m) = m
inside m = m

abbrev pub codec : Codec String
codec = record {
  pack_failure = λ m. none;
  pack_key_failure = λ k. none;
  marshal_body = λ ms. ok (1 ∷ []);
  marshal_auth_info = λ a. ok (2 ∷ []);
  marshal_tx_raw = λ r. ok (3 ∷ []);
  direct_sign_bytes = λ b a c n. ok (4 ∷ []);
  int_from_string = set_string;
  unwrap_delegated_msg = inside;
  is_short_term_clob_msgs = λ ms. false;
  validate_basic = λ m. ok tt;
}

abbrev pub deps : Deps ℕ (List String) String
deps = record {
  priv = record { pub_key = 5 ∷ []; sign = λ b. ok (6 ∷ []) };
  operator = operator;
  chain_id = "svp-1";
  fee = record { denom = "usvp"; amount = "10"; gas_limit = 200000 };
  endpoint = "https://agent.example";
  capabilities = "research" ∷ [];
  metadata = "";
  dt = dt;
  codec = codec;
  builder = record {
    place_limit_order = λ i a w. (ok "place", w);
    cancel_order = λ i a w. (ok "cancel", w);
    batch_cancel_orders = λ i a w. (ok "batch", w);
    deposit_to_subaccount = λ i a w. (ok "deposit", w);
  };
  now = λ w. (pos w, w);
  query_agent = λ id w. (ok none, w);
  agent_by_operator = λ o w. (ok none, w);
  min_bond = λ w. (ok (record { denom = "usvp"; amount = pos 100 }), w);
  auth_q = none;
  wallet_params = λ w. (ok (record { max_delegation_depth = 4; max_token_ttl_seconds = 86400 }), w);
  query_epoch = λ r w. (ok (record { epoch = 3; paused = false }), w);
  settlement_q = none;
  parse_settlement_id = λ s. or_fail (decode_string s) (errorf "no settlement id" []);
  account = λ a w. (ok (record { account_number = 7; sequence = 1 }), w);
  broadcast_sync = λ raw w. (ok (record { tx_hash = "AB"; code = 0; raw_log = "" }), w);
  policy_tenant =
      λ id w. (ok (record { tenant_id = id; owner = operator; allowed_subaccounts = [] }), w);
  human_to_quantums = λ s. ok 5;
  check_deposit = λ q. ok tt;
  agent_id_from_operator = λ o. me;
  did_prefix = "did:svp:";
  sha256 = λ b. b;
  hex_root_id = encode_to_string;
  settlement_id_to_caveat = encode_to_string;
  int_string = to_string;
}

abbrev pub proof : List String
proof = "AQI=" ∷ "AwQ=" ∷ []

abbrev pub tokens : List Bytes
tokens = (1 ∷ 2 ∷ []) ∷ (3 ∷ 4 ∷ []) ∷ []

-- The service as it starts, with a card to register.
abbrev pub started : Service ℕ
started = record {
  world = 100;
  card_hash = 8 ∷ [];
  cached_params = none;
  params_fetched = pos 0;
  params_cache_ttl = pos 60;
  epoch_cache = [];
  epoch_cache_ttl = pos 10;
  sent = [];
}

-- The same once the wallet parameters have been read.
abbrev pub warm : Service ℕ
warm = record started {
  cached_params = some (record { max_delegation_depth = 4; max_token_ttl_seconds = 86400 });
  params_fetched = pos 100;
}
