-- ===== src/Delegated/Resolver.antt =====
-- internal/delegated/resolver.go: which keys may sign for an agent id.
pub mod Keys
use svpchain_research_agent.Base.{
  Bool, true, false, ◌&&◌, String, List, [], ◌∷◌, Option, none, some, Result, ok, err, Error,
  external, Bytes, M, ◌==◌, bytes_eq, nat_eq, null, length, if◌then◌else◌, cut_prefix,
}
use svpchain_research_agent.Base.State.{◌>>=◌, lift}
use svpchain_research_agent.Delegated.{Deps, AgentRecord}

abbrev pub sig_invalid : Error
sig_invalid = external "svpdt.ErrSigInvalid"

-- The key of a registration, if the registry answered with one that is not empty.
abbrev pub registered_key : Result (Option AgentRecord) → Option Bytes
registered_key (ok (some a)) = if null a.public_key then none else some a.public_key
registered_key (ok none) = none
registered_key (err e) = none

module _ {W O X : Type 0} (d : Deps W O X) where
  -- The key's length decides, whether or not the query failed.
  abbrev pub published_key : Result Bytes × W → Result (List Bytes) × W
  published_key (ok key, w) =
      (if length key == d.dt.pub_key_len then ok (key ∷ []) else err sig_invalid, w)
  published_key (err e, w) = (err sig_invalid, w)

  abbrev pub account_key : Option (String → M W Bytes) → Option String → M W (List Bytes)
  account_key none bech w = (err sig_invalid, w)
  account_key (some auth) none w = (err sig_invalid, w)
  account_key (some auth) (some bech) w = published_key (auth bech w)

  abbrev pub keys_after : String → Result (Option AgentRecord) × W → Result (List Bytes) × W
  keys_after agent_id (r, w) = elim (registered_key r) [
    | some key ↦ (ok (key ∷ []), w)
    | none ↦ account_key d.auth_q (cut_prefix agent_id d.did_prefix) w
  ]

  -- ctxResolver.PublicKeys
  unfoldable pub public_keys : String → M W (List Bytes)
  public_keys agent_id w = keys_after agent_id (d.query_agent agent_id w)

-- The kinds of key that an account may have published.
pub data KeyType : Type 0 where
  secp256k1 ethsecp256k1 other : KeyType

pub record PubKey : Type 0 where
  pub key_type : KeyType
  pub bytes : Bytes
  pub address : Bytes

-- The account query, the codec and the address format, which stand outside the repository.
pub record AuthKeyClient (W A : Type 0) : Type 0 where
  pub acc_address_from_bech32 : String → Result Bytes
  pub account : String → M W A
  pub unpack_pub_key : A → Result (Option PubKey)

abbrev pub accepted_type : KeyType → Bool
accepted_type secp256k1 = true
accepted_type ethsecp256k1 = true
accepted_type other = false

abbrev checked_key : Bytes → Option PubKey → Result Bytes
checked_key addr none = err sig_invalid
checked_key addr (some pub_key) =
    if accepted_type pub_key.key_type && pub_key.address == addr
    then ok pub_key.bytes
    else err sig_invalid

unfoldable pub account_pub_key : {W A : Type 0} → AuthKeyClient W A → String → M W Bytes
account_pub_key c address = do
  addr ← lift (c.acc_address_from_bech32 address)
  resp ← c.account address
  pub_key ← lift (c.unpack_pub_key resp)
  lift (checked_key addr pub_key)
