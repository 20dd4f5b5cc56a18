-- ===== src/Delegated/ReadTenants/Table.antt =====
-- The table as a map: its keys are distinct, and sweeping drops the expired entries alone.
use svpchain_research_agent.Base.{
  suc, ◌≤◌, ℤ, ◌≡◌, refl, String, [], ◌∷◌, Option, none, some, arith, eq_iff, lookup, insert,
  IsDistinct, string_eq, length, if◌then◌else◌,
}
use svpchain_research_agent.Delegated.ReadTenants.{Table, ReadTenant, is_live, is_known, sweep}

abbrev pub live_entry : ℤ → Option ReadTenant → Option ReadTenant
live_entry now none = none
live_entry now (some t) = if is_live now t then some t else none

-- What a sweep leaves of a key.
pub lookup-sweep :
    (now : ℤ) (id : String) (m : Table)
    → IsDistinct m
    → lookup id (sweep now m) ≡ live_entry now (lookup id m)
unfolding sweep lookup
lookup-sweep now id [] h = refl
lookup-sweep now id ((j, t) ∷ m) (absent, h) = ground (arith, eq_iff j id, lookup-sweep now id m h)

pub sweep-IsDistinct : (now : ℤ) (m : Table) → IsDistinct m → IsDistinct (sweep now m)
unfolding sweep
sweep-IsDistinct now [] h = tt
sweep-IsDistinct now ((j, t) ∷ m) (absent, h) =
    ground (arith, sweep-IsDistinct now m h, lookup-sweep now j m h)

pub length-sweep-le : (now : ℤ) (m : Table) → length (sweep now m) ≤ length m
unfolding sweep
length-sweep-le now [] = omega arith
length-sweep-le now ((j, t) ∷ m) = ground (arith, length-sweep-le now m)

pub length-insert :
    (id : String) (t : ReadTenant) (m : Table)
    → length (insert id t m) ≡ (if is_known (lookup id m) then length m else suc (length m))
unfolding insert lookup
length-insert id t [] = refl
length-insert id t ((j, u) ∷ m) = ground (arith, length-insert id t m)
