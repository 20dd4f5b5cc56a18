-- ===== src/Delegated/Reads/Pinning.antt =====
-- The arguments of a delegated read belong to the credential's principal.
use svpchain_research_agent.Base.{
  ℕ, ◌≡◌, refl, subst, ◌<◌, pos, ◌⊎◌, ◌≢◌, inl, inr, true, false, String, Option, none, some, ok,
  err, arith, eq_iff, lookup-insert, lookup, insert, [], ◌∷◌, Bool-cases, eqb-false, string_eq,
  ◌==◌, if◌then◌else◌, panic,
}
use svpchain_research_agent.Base.Results.{Result-cases}
use svpchain_research_agent.Json.{
  Json, null, int, obj, field, end, marshal_map, RawMessage, value, unmarshal_string,
  unmarshal_uint32, unmarshal_map,
}
use svpchain_research_agent.Json.Structs.{unmarshal_struct, struct_field, equal_fold}
use svpchain_research_agent.Svpdt.{Svpdt, Verified}
use svpchain_research_agent.Delegated.Reads.{
  ReadSpec, ArgMap, get, put, read_args, read_field, pin_owner, check_subaccount, pin_map,
  pin_args_to_principal,
}
use svpchain_research_agent.Delegated.Reads.Decoded.{
  decoded, IsShadowed, AreDistinct, read_args-AreDistinct, put-AreDistinct, read_field-decoded,
}

read_field-str :
    (name : String) (o : Option Json) (owner : String)
    → read_field unmarshal_string "" name o ≡ ok owner
    → owner ≢ ""
    → o ≡ some (Json.str owner)
unfolding unmarshal_string
read_field-str name none owner r p = absurd (p (ground arith))
read_field-str name (some null) owner r p = absurd (p (ground arith))
read_field-str name (some (Json.str s)) owner r p = ground arith
read_field-str name (some j) owner r p = ground arith

module _ {O : Type 0} (spec : ReadSpec) (v : Verified O) where
  -- The owner argument is the principal's, and every other argument is as it was.
  abbrev pub OwnedBy : ArgMap → ArgMap → Type 0
  OwnedBy m m' =
      (k : String)
      → get m' k ≡ (if spec.owner_field == k then some (Json.str v.principal) else get m k)

  put-OwnedBy :
      (m m' : ArgMap) → put m spec.owner_field (Json.str v.principal) ≡ ok m' → OwnedBy m m'
  put-OwnedBy none m' h k = cc
  put-OwnedBy (some m) none h k = cc
  put-OwnedBy (some m) (some m') h k =
      ground (arith, lookup-insert spec.owner_field k (Json.str v.principal) m)

  kept-OwnedBy : (m : ArgMap) → get m spec.owner_field ≡ some (Json.str v.principal) → OwnedBy m m
  kept-OwnedBy m h k = elim (Bool-cases (spec.owner_field == k)) [
    | inl same ↦ rw (same, ← (eq_iff spec.owner_field k).0 same) h
    | inr other ↦ rw other
  ]

  pin_owner-OwnedBy :
      (m m' : ArgMap) (owner : String)
      → pin_owner spec v m owner ≡ ok m'
      → read_field unmarshal_string "" spec.owner_field (get m spec.owner_field) ≡ ok owner
      → OwnedBy m m'
  unfolding pin_owner
  pin_owner-OwnedBy m m' owner h r = elim (Bool-cases (owner == "")) [
    | inl e ↦ put-OwnedBy m m' (ground arith)
    | inr n ↦
        let same : owner ≡ v.principal = ground (arith, eq_iff owner v.principal) in
        let kept : m' ≡ m = ground arith in
        rw kept (
          kept-OwnedBy m (
            rw (← same) (
              read_field-str spec.owner_field (get m spec.owner_field) owner r
                (eqb-false owner "" n))))
  ]

  -- The subaccount under the exact key, or 0 where there is none, is within the grant, and it is
  -- the one that the tool decodes unless another key names the field; where the tool has one.
  abbrev pub WithinGrant : {W : Type 0} → Svpdt W O → ArgMap → Type 0
  WithinGrant dt m =
      (spec.has_subaccount ≡ false)
      ⊎ ((sub : ℕ) × (read_field unmarshal_uint32 0 "subaccount_number" (get m "subaccount_number")
            ≡ ok sub)
          × (dt.has_uint32 v.effective.subaccounts sub ≡ true)
          × (IsShadowed "subaccount_number" m
              ⊎ (decoded unmarshal_uint32 0 "subaccount_number" m ≡ ok sub)))

  -- The tool decodes the principal for the owner, unless another key names the field.
  abbrev pub IsOwnerRead : ArgMap → Type 0
  IsOwnerRead m =
      IsShadowed spec.owner_field m
      ⊎ (decoded unmarshal_string "" spec.owner_field m ≡ ok v.principal)

  check_subaccount-WithinGrant :
      {W : Type 0} (dt : Svpdt W O) (m : ArgMap)
      → AreDistinct m
      → check_subaccount spec v dt m ≡ ok tt
      → WithinGrant dt m
  unfolding check_subaccount
  check_subaccount-WithinGrant dt m distinct h = elim (Bool-cases spec.has_subaccount) [
    | inr none_here ↦ inl none_here
    | inl has ↦
        elim (Result-cases
          (read_field unmarshal_uint32 0 "subaccount_number" (get m "subaccount_number"))) [
            | inr (x, q) ↦ absurd (ground arith)
            | inl (sub, q) ↦ inr (
              sub,
              q,
              ground arith,
              read_field-decoded unmarshal_uint32 0 "subaccount_number" m sub distinct q,
            )
          ]
  ]

  pin_owner-AreDistinct :
      (m m' : ArgMap) (owner : String)
      → pin_owner spec v m owner ≡ ok m'
      → AreDistinct m
      → AreDistinct m'
  unfolding pin_owner
  pin_owner-AreDistinct m m' owner h g = elim (Bool-cases (owner == "")) [
    | inl e ↦ put-AreDistinct m m' spec.owner_field (Json.str v.principal) (ground arith) g
    | inr n ↦ let kept : m ≡ m' = ground arith in subst AreDistinct kept g
  ]

  owned-IsOwnerRead : (m m' : ArgMap) → OwnedBy m m' → AreDistinct m' → IsOwnerRead m'
  unfolding unmarshal_string
  owned-IsOwnerRead m m' owned distinct =
      let here : get m' spec.owner_field ≡ some (Json.str v.principal) =
        ground (arith, owned spec.owner_field, eq_iff spec.owner_field spec.owner_field) in
      read_field-decoded unmarshal_string "" spec.owner_field m' v.principal distinct (rw here refl)

  pub record IsPinned {W : Type 0} (dt : Svpdt W O) (args : RawMessage) (m' : ArgMap) : Type 0 where
    pub given : ArgMap
    pub decoded : read_args args ≡ ok given
    pub owned : OwnedBy given m'
    pub owner_read : IsOwnerRead m'
    pub within : WithinGrant dt m'

  -- Arguments that are pinned successfully: in the answered map the owner's field holds the
  -- credential's principal and every other key holds what the caller gave; and where the tool has a
  -- subaccount, the one under the exact key subaccount_number, or 0 where there is none, is within
  -- the grant. The tool decodes the principal and that subaccount, unless the map has another key
  -- that names the same field when its case is left aside.
  pub pin_map-IsPinned :
      {W : Type 0} (dt : Svpdt W O) (args : RawMessage) (m' : ArgMap)
      → pin_map dt args spec v ≡ ok m'
      → IsPinned dt args m'
  unfolding pin_map
  pin_map-IsPinned dt args m' h = elim (Result-cases (read_args args)) [
    | inr (x, q) ↦ absurd (ground arith)
    | inl (m, q) ↦
        elim (Result-cases
          (read_field unmarshal_string "" spec.owner_field (get m spec.owner_field))) [
            | inr (x, r) ↦ absurd (ground arith)
            | inl (owner, r) ↦ elim (Result-cases (pin_owner spec v m owner)) [
              | inr (x, p) ↦ absurd (ground arith)
              | inl (m₂, p) ↦
                  let same : m₂ ≡ m' = ground arith in
                  let given_distinct = read_args-AreDistinct args m q in
                  let distinct = pin_owner-AreDistinct m m₂ owner p given_distinct in
                  let owned = pin_owner-OwnedBy m m₂ owner p r in
                  record {
                    given = m;
                    decoded = q;
                    owned = rw (← same) owned;
                    owner_read = rw (← same) (owned-IsOwnerRead m m₂ owned distinct);
                    within =
                        rw (← same) (check_subaccount-WithinGrant dt m₂ distinct (ground arith));
                  }
            ]
          ]
  ]

-- For every tool and credential, the arguments `null` make the owner's write panic: they decode to
-- a nil map, and the write to it is a runtime panic and no refusal.
pub pin_args_panics :
    {W O : Type 0} (dt : Svpdt W O) (spec : ReadSpec) (v : Verified O)
    → pin_args_to_principal dt (value null) spec v ≡ err (panic "assignment to entry in nil map")
unfolding pin_args_to_principal pin_map unmarshal_map
pin_args_panics dt spec v = ground arith

-- A tool whose owner is in `address`, such as get_orders.
abbrev pub address_spec : ReadSpec
address_spec = record { owner_field = "address"; has_subaccount = true }

-- Where a credential grants subaccount 0, the arguments that hold any uint32 under the key
-- "Subaccount_Number" are let through for a tool with a subaccount and its owner in `address`, and
-- the tool decodes that number for its subaccount, whether or not the credential grants it.
pub pin_map_folds :
    {W O : Type 0} (dt : Svpdt W O) (v : Verified O) (n : ℕ)
    → n < 4294967296
    → dt.has_uint32 v.effective.subaccounts 0 ≡ true
    → (m : ArgMap) × (pin_map dt
          (value (obj (field "Subaccount_Number" (int (pos n)) end)))
          address_spec
          v
        ≡ ok m)
      × (decoded unmarshal_uint32 0 "subaccount_number" m ≡ ok n)
unfolding pin_map unmarshal_map insert lookup unmarshal_uint32 marshal_map unmarshal_struct
    struct_field equal_fold
pin_map_folds dt v n small granted = (
  some (("Subaccount_Number", int (pos n)) ∷ ("address", Json.str v.principal) ∷ []),
  ground arith,
  ground arith,
)
