-- ===== src/Tests/Reads.antt =====
-- Delegated reads at concrete inputs.
use svpchain_research_agent.Base.{
  ℕ, pos, ◌≡◌, refl, true, false, String, List, [], ◌∷◌, some, ok, err, panic, arith, sub64, lookup,
  insert, string_eq,
}
use svpchain_research_agent.Json.{
  Json, null, RawMessage, value, Fields, field, end, unmarshal_map, marshal_map, unmarshal_uint32,
}
use svpchain_research_agent.Json.Maps.{unmarshal-marshal_map}
use svpchain_research_agent.Delegated.{Service, EpochEntry}
use svpchain_research_agent.Delegated.Reads.{
  ReadSpec, ArgMap, pin_map, pin_args_to_principal, check_root_state, authorize_read,
}
use svpchain_research_agent.Delegated.Reads.Authorized.{authorize_read-sent}
use svpchain_research_agent.Delegated.Reads.Pinning.{
  IsPinned, pin_map-IsPinned, pin_args_panics, address_spec, pin_map_folds,
}
use svpchain_research_agent.Delegated.Reads.Decoded.{decoded}
use svpchain_research_agent.Delegated.Reads.Roots.{
  IsGenuine, IsCurrent, check_root_state-IsGenuine, check_root_state-IsCurrent,
  check_root_state_stale,
}
use svpchain_research_agent.Delegated.ReadTenants.{admit, lookup_tenant_policy, tenant_id, sweep}
use svpchain_research_agent.Base.Hex.{encode_to_string}
use svpchain_research_agent.Delegated.ReadTenants.Laws.{IsValid, admit-IsValid, lookup-admit}
use svpchain_research_agent.Tests.{deps, dt, grant, proof, started}

abbrev fields : Fields
fields = field "subaccount_number" (Json.int (pos 1)) end

abbrev args : RawMessage
args = value (Json.obj fields)

abbrev orders : ReadSpec
orders = record { owner_field = "address"; has_subaccount = true }

abbrev pinned : ArgMap
pinned = some (("subaccount_number", Json.int (pos 1)) ∷ ("address", Json.str "svp1alice") ∷ [])

pinned_now : pin_map dt args orders grant ≡ ok pinned
unfolding pin_map unmarshal_map lookup insert unmarshal_uint32
pinned_now = refl

pin_map-IsPinned_example : IsPinned orders grant dt args pinned
pin_map-IsPinned_example = pin_map-IsPinned orders grant dt args pinned pinned_now

pin_map_folds_example :
    (m : ArgMap) × (pin_map dt
        (value (Json.obj (field "Subaccount_Number" (Json.int (pos 7)) end)))
        address_spec
        grant
      ≡ ok m)
    × (decoded unmarshal_uint32 0 "subaccount_number" m ≡ ok 7)
pin_map_folds_example = pin_map_folds dt grant 7 (omega arith) refl

pin_args_panics_example :
    pin_args_to_principal dt (value null) orders grant
    ≡ err (panic "assignment to entry in nil map")
pin_args_panics_example = pin_args_panics dt orders grant

abbrev answer : Json
answer =
    Json.obj
      (field "address" (Json.str "svp1alice") (field "subaccount_number" (Json.int (pos 1)) end))

-- Any world may be a past one.
abbrev Past : ℕ → Type 0
Past w = Unit

authorize_read-sent_example : (authorize_read deps "get_orders" proof args started).1.sent ≡ []
authorize_read-sent_example = authorize_read-sent deps started "get_orders" proof args

check_root_state-IsGenuine_example : IsGenuine deps Past (check_root_state deps grant started).1
check_root_state-IsGenuine_example = check_root_state-IsGenuine deps Past started grant tt tt tt

current_now : (check_root_state deps grant started).0 ≡ ok tt
unfolding check_root_state lookup
current_now = refl

check_root_state-IsCurrent_example : IsCurrent deps Past started grant
check_root_state-IsCurrent_example =
    check_root_state-IsCurrent deps Past started grant tt current_now

abbrev old_entry : EpochEntry
old_entry = record { epoch = 3; paused = false; fetched = pos 50 }

abbrev aged : Service ℕ
aged = record started { epoch_cache = (grant.root, old_entry) ∷ [] }

aged_now : (check_root_state deps grant aged).0 ≡ ok tt
unfolding check_root_state lookup sub64
aged_now = refl

check_root_state_stale_example :
    (deps.query_epoch grant.root 100).0 ≡ ok (record { epoch = 3; paused = false })
unfolding sub64 lookup
check_root_state_stale_example = check_root_state_stale deps aged grant old_entry refl refl aged_now

empty_table : IsValid []
empty_table = record { distinct = tt; bounded = omega arith }

admit-IsValid_example : IsValid (admit (pos 100) grant []).1
admit-IsValid_example = admit-IsValid (pos 100) grant [] empty_table

lookup-admit_example :
    lookup_tenant_policy (pos 200) (tenant_id grant) (admit (pos 100) grant []).1
    ≡ some (record {
      tenant_id = tenant_id grant;
      owner = "svp1alice";
      allowed_subaccounts = 0 ∷ 1 ∷ [];
    })
unfolding tenant_id lookup sweep encode_to_string
lookup-admit_example =
    lookup-admit (pos 100) grant [] (pos 200) (tenant_id grant) empty_table (omega arith)

abbrev two : List (String × Json)
two = ("b", Json.int (pos 1)) ∷ ("a", null) ∷ []

unmarshal-marshal_map_example :
    (m' : List (String × Json)) × (unmarshal_map (value (marshal_map two)) ≡ ok (some m'))
    × ((k : String) → lookup k m' ≡ lookup k two)
unfolding lookup
unmarshal-marshal_map_example = unmarshal-marshal_map two (refl, (refl, tt))
