-- ===== src/Delegated/ReadTenants.antt =====
-- internal/delegated/read_tenants.go: the table of proof-derived tenants. Each call reads the clock
-- once; the reading is an argument.
pub mod Table
pub mod Laws
use svpchain_research_agent.Base.{
  ℕ, zero, suc, ℤ, Bool, true, false, not, ◌&&◌, String, List, [], ◌∷◌, Option, none, some, ◌<>◌,
  leb, ltb_ℤ, length, lookup, insert, string_eq, if◌then◌else◌,
}
use svpchain_research_agent.Base.Hex.{encode_to_string}
use svpchain_research_agent.Svpdt.{Verified}
use svpchain_research_agent.Delegated.{TenantContext, TenantPolicy}

pub record ReadTenant : Type 0 where
  pub policy : TenantPolicy
  pub expires : ℤ

-- ReadTenantSource.byID
abbrev pub Table : Type 0
Table = List (String × ReadTenant)

abbrev pub max_read_tenants : ℕ
max_read_tenants = 4096

abbrev take {ℓ} : {A : Type ℓ} → ℕ → List A → List A
take zero xs = []
take (suc n) [] = []
take (suc n) (x ∷ xs) = x ∷ take n xs

-- `now < t.expires`
abbrev pub is_live : ℤ → ReadTenant → Bool
is_live now t = ltb_ℤ now t.expires

unfoldable pub sweep : ℤ → Table → Table
sweep now [] = []
sweep now ((id, t) ∷ m) = let rest = sweep now m in if is_live now t then (id, t) ∷ rest else rest

abbrev pub is_known : Option ReadTenant → Bool
is_known none = false
is_known (some t) = true

module _ {O : Type 0} where
  unfoldable pub tenant_id : Verified O → String
  tenant_id v = "svpdt-" <> encode_to_string (take 8 v.chain_hash)

  abbrev pub tenant_of : Verified O → ReadTenant
  tenant_of v = record {
    policy = record {
      tenant_id = tenant_id v;
      owner = v.principal;
      allowed_subaccounts = v.effective.subaccounts;
    };
    expires = v.leaf_exp;
  }

  -- A full table takes no tenant that it does not hold.
  abbrev pub is_refused : Verified O → Table → Bool
  is_refused v m = not (is_known (lookup (tenant_id v) m)) && leb max_read_tenants (length m)

  unfoldable pub admit : ℤ → Verified O → Table → TenantContext × Table
  admit now v m =
      let swept = sweep now m in
      (
        record { tenant_id = tenant_id v; owner = v.principal },
        if is_refused v swept then swept else insert (tenant_id v) (tenant_of v) swept,
      )

abbrev live_policy : ℤ → Option ReadTenant → Option TenantPolicy
live_policy now none = none
live_policy now (some t) = if is_live now t then some t.policy else none

unfoldable pub lookup_tenant_policy : ℤ → String → Table → Option TenantPolicy
lookup_tenant_policy now id m = live_policy now (lookup id m)
