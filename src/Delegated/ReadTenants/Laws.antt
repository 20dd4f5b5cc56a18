-- ===== src/Delegated/ReadTenants/Laws.antt =====
-- The bound of the table, and what a tenant id resolves to after an admission.
use svpchain_research_agent.Base.{
  ◌≤◌, ℤ, ◌≤ℤ◌, ◌≡◌, refl, not, ◌&&◌, String, none, some, arith, insert, lookup-insert, IsDistinct,
  insert-IsDistinct, string_eq, Bool-cases, inl, inr, ◌==◌, ltb_ℤ, length, if◌then◌else◌,
}
use svpchain_research_agent.Svpdt.{Verified}
use svpchain_research_agent.Delegated.ReadTenants.{
  Table, ReadTenant, max_read_tenants, sweep, tenant_id, tenant_of, is_refused, admit, live_policy,
  lookup_tenant_policy,
}
use svpchain_research_agent.Delegated.ReadTenants.Table.{
  lookup-sweep, sweep-IsDistinct, length-sweep-le, length-insert,
}

pub record IsValid (m : Table) : Type 0 where
  pub distinct : IsDistinct m
  pub bounded : length m ≤ max_read_tenants

policy-insert :
    (later : ℤ) (k id : String) (t : ReadTenant) (m : Table)
    → lookup_tenant_policy later id (insert k t m)
      ≡ (if k == id then live_policy later (some t) else lookup_tenant_policy later id m)
unfolding lookup_tenant_policy
policy-insert later k id t m = ground (arith, lookup-insert k id t m)

module _ {O : Type 0} (now : ℤ) (v : Verified O) (m : Table) where
  -- An admission keeps the table valid: its keys are distinct and it has at most 4096 entries.
  pub admit-IsValid : IsValid m → IsValid (admit now v m).1
  unfolding admit
  admit-IsValid h = record {
    distinct = ground (
      arith,
      sweep-IsDistinct now m h.distinct,
      insert-IsDistinct (tenant_id v) (tenant_of v) (sweep now m)
          (sweep-IsDistinct now m h.distinct),
    );
    bounded =
        ground
          (arith, length-sweep-le now m, length-insert (tenant_id v) (tenant_of v) (sweep now m));
  }

  -- The entry of an id, after the time that its sweep took.
  pub live_later :
      (later : ℤ) (id : String)
      → IsDistinct m
      → now ≤ℤ later
      → lookup_tenant_policy later id (sweep now m) ≡ lookup_tenant_policy later id m
  unfolding lookup_tenant_policy
  live_later later id h le = ground (arith, lookup-sweep now id m h)

  -- What a valid table answers at any later time, after an admission: for the admitted tenant's id,
  -- unless a full table refused it, the policy of the credential's principal and subaccounts until
  -- the credential expires, and nothing then; in every other case, what it would have answered
  -- without the admission and its sweep.
  pub lookup-admit :
      (later : ℤ) (id : String)
      → IsValid m
      → now ≤ℤ later
      → lookup_tenant_policy later id (admit now v m).1 ≡ (
          if not (is_refused v (sweep now m)) && tenant_id v == id
          then (if ltb_ℤ later v.leaf_exp then some (tenant_of v).policy else none)
          else lookup_tenant_policy later id m)
  unfolding admit
  lookup-admit later id h le = elim (Bool-cases (is_refused v (sweep now m))) [
    | inl full ↦ rw full (live_later later id h.distinct le)
    | inr room ↦
        rw (room, policy-insert later (tenant_id v) id (tenant_of v) (sweep now m))
          (rw (live_later later id h.distinct le) refl)
  ]
