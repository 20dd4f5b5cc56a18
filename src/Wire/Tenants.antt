-- ===== src/Wire/Tenants.antt =====
-- internal/wire/wire.go: two populations of tenants behind the policy engine's one slot.
use text.Mathlib.TextLemmas.{cons-append}
use svpchain_research_agent.Base.{
  ◌≡◌, ◌≢◌, refl, ap, ◌∙◌, inl, inr, true, false, ◌==◌, string_eq, eq_iff, Bool-cases, Option-cases,
  ltb_ℤ, ◌≤ℤ◌, if◌then◌else◌, ℤ, String, [], ◌∷◌, Option, none, some, Result, ok, err, Error, arith,
  cut_prefix, ◌<>◌,
}
use svpchain_research_agent.Base.Results.{Result-cases}
use svpchain_research_agent.Svpdt.{Verified}
use svpchain_research_agent.Delegated.{TenantPolicy}
use svpchain_research_agent.Delegated.ReadTenants.{
  Table, tenant_id, tenant_of, is_refused, sweep, admit, lookup_tenant_policy,
}
use svpchain_research_agent.Delegated.ReadTenants.Laws.{IsValid, lookup-admit}
use svpchain_research_agent.Wire.{
  EnginePolicy, DynamicSource, dynamic_tenant_adapter, multi_dynamic_source,
}

-- A read tenant's policy as the engine reads it.
abbrev pub engine_policy : Option TenantPolicy → Option EnginePolicy
engine_policy none = none
engine_policy (some tp) = some (record {
  tenant_id = tp.tenant_id;
  owner = tp.owner;
  allowed_subaccounts = tp.allowed_subaccounts;
  kill_switch = false;
})

abbrev pub read_source : ℤ → Table → DynamicSource
read_source now m id = engine_policy (lookup_tenant_policy now id m)

-- The ids of the store's own tenants begin with "auto-".
abbrev pub AreAuto : (String → Result EnginePolicy) → Type 0
AreAuto store = (id : String) (tp : EnginePolicy) → store id ≡ ok tp → cut_prefix id "auto-" ≢ none

svpdt_no_auto : (x : String) → cut_prefix ("svpdt-" <> x) "auto-" ≡ none
unfolding cut_prefix
svpdt_no_auto x = rw (cons-append "s" "vpdt-" x) refl

id_no_auto : {O : Type 0} (v : Verified O) → cut_prefix (tenant_id v) "auto-" ≡ none
unfolding tenant_id
id_no_auto v = svpdt_no_auto _

only_source : (src : DynamicSource) (id : String) → multi_dynamic_source (src ∷ []) id ≡ src id
unfolding multi_dynamic_source
only_source src id = elim (Option-cases (src id)) [ inl q ↦ rw q refl | inr (tp, q) ↦ rw q refl ]

second_source :
    (store : String → Result EnginePolicy) (src : DynamicSource) (id : String) (e : Error)
    → store id ≡ err e
    → multi_dynamic_source (dynamic_tenant_adapter store ∷ src ∷ []) id
      ≡ multi_dynamic_source (src ∷ []) id
unfolding multi_dynamic_source dynamic_tenant_adapter
second_source store src id e q = ground arith

-- No other tenant shadows a read tenant.
multi_source-read :
    {O : Type 0} (store : String → Result EnginePolicy) (src : DynamicSource) (v : Verified O)
    → AreAuto store
    → multi_dynamic_source (dynamic_tenant_adapter store ∷ src ∷ []) (tenant_id v)
      ≡ src (tenant_id v)
multi_source-read store src v auto = elim (Result-cases (store (tenant_id v))) [
  | inr (e, q) ↦ second_source store src (tenant_id v) e q ∙ only_source src (tenant_id v)
  | inl (tp, q) ↦ absurd (auto (tenant_id v) tp q (id_no_auto v))
]

-- After a credential was admitted as a read tenant, with room in a valid table, the policy engine
-- resolves the tenant's id at every later time: to the credential's principal and subaccounts until
-- the credential expires, and to nothing then. The ids of the tenants of the other source begin
-- with "auto-".
pub admitted-IsResolved :
    {O : Type 0} (store : String → Result EnginePolicy) (now later : ℤ) (m : Table) (v : Verified O)
    → AreAuto store
    → IsValid m
    → now ≤ℤ later
    → is_refused v (sweep now m) ≡ false
    → multi_dynamic_source
        (dynamic_tenant_adapter store ∷ read_source later (admit now v m).1 ∷ [])
        (tenant_id v)
      ≡ (if ltb_ℤ later v.leaf_exp then engine_policy (some (tenant_of v).policy) else none)
admitted-IsResolved store now later m v auto valid le room =
    multi_source-read store (read_source later (admit now v m).1) v auto
    ∙ ap engine_policy (lookup-admit now v m later (tenant_id v) valid le)
    ∙ rw (room, same)
        (elim (Bool-cases (ltb_ℤ later v.leaf_exp)) [
          | inl live ↦ rw live refl
          | inr over ↦ rw over refl
        ])
  where
    same : (tenant_id v == tenant_id v) ≡ true
    same = (eq_iff (tenant_id v) (tenant_id v)).1 refl
