-- ===== src/Tests/Intermediary.antt =====
-- The middle hop at concrete inputs.
use svpchain_research_agent.Base.{
  ℤ, pos, ◌≡◌, refl, true, false, String, List, [], ◌∷◌, none, some, Result, ok, arith, is_negative,
  trim_space, add64,
}
use svpchain_research_agent.Base.Base64.{encode}
use svpchain_research_agent.Svpdt.{Caveats}
use svpchain_research_agent.Delegated.Execute.{ExecResult}
use svpchain_research_agent.Delegated.Settlement.{ExecRecordSpendInput}
use svpchain_research_agent.Intermediary.{
  Config, NarrowSpec, ForwardInput, narrow, narrow_expires, forward, admit, charge, mint,
}
use svpchain_research_agent.Intermediary.Narrow.{
  IsNarrowed, narrow-IsNarrowed, narrow_expires_wraps,
}
use svpchain_research_agent.Intermediary.Log.{Event, charged, forwarded}
use svpchain_research_agent.Tests.{dt, grant, proof, tokens, caveats, me}

abbrev recorder : ExecRecordSpendInput → List Event → Result ExecResult × List Event
recorder r s = (
  ok (record { tx_hash = "AB"; code = 0; raw_log = ""; agent_id = me; principal = "svp1alice" }),
  charged r ∷ s,
)

-- The state is the log. The clock stands at the end of the int64 range but for ten seconds.
abbrev pub config : Config (List Event) (List String)
config = record {
  agent_id = me;
  verify = λ p s. (ok (tokens, grant), s);
  send = λ e b ts s.
      (ok (record { task_id = "t"; state = "completed"; response = "" }), forwarded e b ts ∷ s);
  spend = some recorder;
  now = λ s. (ok (pos 9223372036854775797), s);
  draw_nonce = λ s. (ok (1 ∷ []), s);
  attenuate = λ p s.
      (ok (record { payload = record { audience = p.audience; caveats = p.caveats } }, 7 ∷ []), s);
  allows = dt.allows;
  constrained_to = dt.constrained_to;
  new_string_set = dt.new_string_set;
  new_uint32_set = dt.new_uint32_set;
  new_coins = dt.new_coins;
}

abbrev spec : NarrowSpec
spec = record {
  actions = "query.account" ∷ [];
  subaccounts = [];
  budget = none;
  svc_budget = none;
  ttl_seconds = pos 5;
}

abbrev narrowed : Caveats (List String)
narrowed = record caveats {
  actions = "query.account" ∷ [];
  redelegable = false;
  redelegate_to = [];
}

narrowed_now : (narrow config caveats spec []).0 ≡ ok narrowed
unfolding narrow narrow_expires add64
narrowed_now = refl

narrow-IsNarrowed_example : IsNarrowed config caveats spec narrowed
narrow-IsNarrowed_example = narrow-IsNarrowed config caveats narrowed spec [] narrowed_now

narrow_expires_wraps_example :
    (e : ℤ) × (narrow_expires config (pos 500) (pos 100) [] ≡ (ok e, [])) × (is_negative e ≡ true)
narrow_expires_wraps_example =
    narrow_expires_wraps config [] [] 9223372036854775797 100 500 refl (omega arith) (omega arith)
      (omega arith)

abbrev pub request : ForwardInput
request = record {
  proof = proof;
  downstream_did = "did:svp:svp1other";
  downstream_endpoint = "https://other.example";
  envelope = 1 ∷ [];
  narrow = spec;
  fee = some (record { denom = "usvp"; amount = "3" });
}

-- The fee is on the log before the envelope, and the chain has one link more.
both :
    (forward config request []).1
    ≡ forwarded request.downstream_endpoint (1 ∷ []) ("AQI=" ∷ "AwQ=" ∷ "Bw==" ∷ [])
      ∷ charged (record {
        proof = proof;
        spend = record { settlement_id = ""; amount = record { denom = "usvp"; amount = "3" } };
      })
      ∷ []
unfolding forward admit trim_space charge mint narrow narrow_expires encode
both = refl
