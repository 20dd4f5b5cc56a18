-- ===== src/Tests/Agentchain.antt =====
-- What a tenant builds and lands, at concrete inputs.
use svpchain_research_agent.Base.{ℕ, ◌≡◌, refl, String, [], ◌∷◌, Option, some, ok, Bytes}
use svpchain_research_agent.Base.Base64.{decode}
use svpchain_research_agent.Base.Decimal.{set_string}
use svpchain_research_agent.Chain.{BroadcastResult}
use svpchain_research_agent.Delegated.{TenantContext}
use svpchain_research_agent.Agentchain.{AgentDeps, authorize, assemble}
use svpchain_research_agent.Agentchain.Coin.{to_sdk}
use svpchain_research_agent.Agentchain.Builds.{build_deposit_bond}
use svpchain_research_agent.Agentchain.Builds.Owned.{IsOwned}
use svpchain_research_agent.Agentchain.Builds.Requests.{Request, deposit, build, build-IsOwned}
use svpchain_research_agent.Agentchain.Broadcast.{TxReader, signer_address, broadcast_signed_tx}
use svpchain_research_agent.Agentchain.Broadcast.Pinned.{IsLanded, broadcast-IsLanded}

abbrev pub chain : AgentDeps ℕ String
chain = record {
  check_tenant = λ id w. (ok tt, w);
  tenant_policy =
      λ id w. (ok (record { tenant_id = id; owner = "svp1alice"; allowed_subaccounts = [] }), w);
  account = λ a w. (ok (record { account_number = 3; sequence = 2 }), w);
  assemble_payload = λ a w. (ok "payload", w);
  validate_msg = λ m. ok tt;
  msg_type_url = λ m. "/svpchain.agent.Msg";
  acc_address_from_bech32 = λ a. ok (1 ∷ []);
  agent_id_from_operator = λ a. "did:svp:agent";
  int_from_string = set_string;
  root_id_len = 32;
  broadcast_sync = λ raw w. (ok (record { tx_hash = "CD"; code = 0; raw_log = "" }), w);
}

abbrev pub caller : Option TenantContext
caller = some (record { tenant_id = "t1"; owner = "svp1alice" })

abbrev bond : Request
bond = deposit (record {
  agent_id = "did:svp:agent";
  amount = record { denom = "usvp"; amount = "12" };
  payload_client_id = "c1";
})

built_now : (build chain caller bond 0).0 ≡ ok "payload"
unfolding build_deposit_bond authorize assemble to_sdk set_string
built_now = refl

build-IsOwned_example : IsOwned chain 0 caller "payload"
build-IsOwned_example = build-IsOwned chain caller 0 bond "payload" built_now

abbrev reader : TxReader Bytes
reader = record {
  auth_info_bytes = λ raw. ok raw;
  signer_infos = λ b. ok (some b ∷ []);
  unpack_address = λ k. ok k;
  bech32 = λ a. "svp1alice";
}

abbrev answer : BroadcastResult
answer = record { tx_hash = "CD"; code = 0; raw_log = "" }

landed_now : (broadcast_signed_tx reader chain caller "AQI=" 0).0 ≡ ok answer
unfolding broadcast_signed_tx authorize signer_address decode
landed_now = refl

broadcast-IsLanded_example : IsLanded reader chain 0 caller "AQI=" answer
broadcast-IsLanded_example = broadcast-IsLanded reader chain 0 caller "AQI=" answer landed_now
