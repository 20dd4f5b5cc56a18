-- ===== src/Delegated/Reads.antt =====
-- internal/delegated/reads.go: reads under a delegated credential.
pub mod Roots
pub mod Decoded
pub mod Pinning
pub mod Authorized
use svpchain_research_agent.Base.{
  ℕ, ℤ, Bool, true, false, not, String, List, [], ◌∷◌, Option, none, some, Result, ok, err, Error,
  errorf, wrap, panic, Bytes, M, Arg, strs, num, nums, ◌==◌, string_eq, nat_eq, bytes_eq, ltb_ℤ,
  sub64, lookup, insert, if◌then◌else◌,
}
use svpchain_research_agent.Base
use svpchain_research_agent.Base.Results
use svpchain_research_agent.Base.Results.{guard, map_err, or_fail}
use svpchain_research_agent.Base.State.{◌>>=◌, ◌>>◌, lift, check, pure, on_error}
use svpchain_research_agent.Json.{
  Json, null, RawMessage, absent, malformed, value, unmarshal_map, unmarshal_string,
  unmarshal_uint32, marshal_map,
}
use svpchain_research_agent.Json
use svpchain_research_agent.Svpdt.{Svpdt, Verified}
use svpchain_research_agent.Delegated.{Deps, Service, RootState, EpochEntry, ask, clock}
use svpchain_research_agent.Delegated.Proof.{verify_proof}

abbrev pub action_query_account : String
action_query_account = "query.account"

pub record ReadSpec : Type 0 where
  pub owner_field : String
  pub has_subaccount : Bool

abbrev spec : String → Bool → ReadSpec
spec owner has_subaccount = record { owner_field = owner; has_subaccount = has_subaccount }

abbrev pub read_specs : List (String × ReadSpec)
read_specs =
    ("get_subaccount", spec "address" true)
    ∷ ("get_live_subaccount", spec "owner" true)
    ∷ ("get_balance", spec "owner" false)
    ∷ ("get_orders", spec "address" true)
    ∷ ("get_fills", spec "address" true)
    ∷ ("get_transfers", spec "address" true)
    ∷ ("get_pnl", spec "address" true)
    ∷ ("get_historical_pnl", spec "address" true)
    ∷ ("get_funding_payments", spec "address" true)
    ∷ []

unfoldable pub read_spec_for : String → Option ReadSpec
read_spec_for tool = lookup tool read_specs

-- Go's maps of arguments; `none` is the nil map.
abbrev pub ArgMap : Type 0
ArgMap = Option (List (String × Json))

abbrev pub get : ArgMap → String → Option Json
get none k = none
get (some m) k = lookup k m

-- A write to a nil map panics.
abbrev pub put : ArgMap → String → Json → Result ArgMap
put none k v = err (panic "assignment to entry in nil map")
put (some m) k v = ok (some (insert k v m))

unfoldable pub read_args : RawMessage → Result ArgMap
read_args absent = ok (some [])
read_args malformed = map_err (wrap "decode args: %w" []) (unmarshal_map malformed)
read_args (value j) = map_err (wrap "decode args: %w" []) (unmarshal_map (value j))

-- An argument that is there and not `null` is decoded; any other leaves the zero value.
abbrev pub read_field : {A : Type 0} → (Json → Result A) → A → String → Option Json → Result A
read_field decode zero_value name none = ok zero_value
read_field decode zero_value name (some null) = ok zero_value
read_field decode zero_value name (some v) =
    map_err (wrap "args %s: %w" (Base.str name ∷ [])) (decode v)

module _ {O : Type 0} (spec : ReadSpec) (v : Verified O) where
  unfoldable pub pin_owner : ArgMap → String → Result ArgMap
  pin_owner m owner =
      if owner == ""
      then put m spec.owner_field (Json.str v.principal)
      else (if owner == v.principal
          then ok m
          else err (
              errorf "credential is for principal %s; cannot read %s"
                (Base.str v.principal ∷ Base.str owner ∷ [])))

  unfoldable pub check_subaccount : {W : Type 0} → Svpdt W O → ArgMap → Result (Unit {0})
  check_subaccount dt m =
      if spec.has_subaccount
      then (Results.◌>>=◌
          (read_field unmarshal_uint32 0 "subaccount_number" (get m "subaccount_number"))
          λ sub. guard (dt.has_uint32 v.effective.subaccounts sub) (
            errorf "credential does not grant subaccount %d (granted: %v)"
              (num sub ∷ nums v.effective.subaccounts ∷ [])))
      else ok tt

abbrev pub marshalled : ArgMap → Json
marshalled none = null
marshalled (some m) = marshal_map m

module _ {W O : Type 0} (dt : Svpdt W O) where
  -- The map of arguments that goes on to the tool.
  unfoldable pub pin_map : RawMessage → ReadSpec → Verified O → Result ArgMap
  unfolding read_args pin_owner check_subaccount
  pin_map args spec v = Results.◌>>=◌ (read_args args) λ m.
      Results.◌>>=◌ (read_field unmarshal_string "" spec.owner_field (get m spec.owner_field))
        λ owner.
          Results.◌>>=◌ (pin_owner spec v m owner)
            λ m'. Results.◌>>◌ (check_subaccount spec v dt m') (ok m')

  unfoldable pub pin_args_to_principal : RawMessage → ReadSpec → Verified O → Result Json
  pin_args_to_principal args spec v = Results.◌>>=◌ (pin_map args spec v) λ m. ok (marshalled m)

module _ {W O X : Type 0} (d : Deps W O X) where
  abbrev store_entry : Bytes → RootState → ℤ → Service W → Result EpochEntry × Service W
  store_entry root resp t s =
      let entry : EpochEntry = record { epoch = resp.epoch; paused = resp.paused; fetched = t } in
      (ok entry, record s { epoch_cache = insert root entry s.epoch_cache })

  fetch_entry : Bytes → M (Service W) EpochEntry
  fetch_entry root = do
    resp ←
        on_error (wrap "root delegation state unavailable (revoked or unknown root?): %w" [])
          (ask (d.query_epoch root))
    t ← clock d
    store_entry root resp t

  -- The clock is read only where there is an entry.
  root_entry : Bytes → Option EpochEntry → M (Service W) EpochEntry
  unfolding fetch_entry
  root_entry root none s = fetch_entry root s
  root_entry root (some entry) s =
      (clock d >>= λ t s₁.
      if ltb_ℤ (sub64 t entry.fetched) s₁.epoch_cache_ttl
      then (ok entry, s₁)
      else fetch_entry root s₁)
        s

  judge_entry : EpochEntry → Verified O → Result (Unit {0})
  judge_entry entry v =
      Results.◌>>◌ (guard (not entry.paused) (errorf "root delegation is paused" [])) (
        guard (entry.epoch == v.root_epoch) (
          errorf
            "credential was minted for root epoch %d but the chain is at %d; mint a fresh credential"
            (num v.root_epoch ∷ num entry.epoch ∷ [])))

  unfoldable pub check_root_state : Verified O → M (Service W) (Unit {0})
  unfolding root_entry judge_entry
  check_root_state v = do
    entry ← λ s. root_entry v.root (lookup v.root s.epoch_cache) s
    lift (judge_entry entry v)

  authorize_spec :
      Option ReadSpec → String → List String → RawMessage → M (Service W) (Verified O × Json)
  authorize_spec none tool proof args s =
      (err (errorf "tool %q does not accept delegated-read credentials" (Base.str tool ∷ [])), s)
  authorize_spec (some spec) tool proof args s =
      (do
        (tokens, verified) ← verify_proof d proof
        check (d.dt.has verified.effective.actions action_query_account) (
            errorf "credential does not grant action %q (granted: %v)"
              (Base.str action_query_account ∷ strs verified.effective.actions ∷ []))
        check_root_state verified
        new_args ← lift (pin_args_to_principal d.dt args spec verified)
        pure (verified, new_args))
        s

  unfoldable pub authorize_read :
      String → List String → RawMessage → M (Service W) (Verified O × Json)
  unfolding authorize_spec
  authorize_read tool proof args = authorize_spec (read_spec_for tool) tool proof args
