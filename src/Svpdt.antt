-- ===== src/Svpdt.antt =====
-- The credential library github.com/svpchain/svpdt, which stands outside the repository: the fields
-- of its types that the program names, and its functions as parameters. `O` is the library's
-- OptionalStringSet, and `W` what a call can read and change outside the process.
use svpchain_research_agent.Base.{ℕ, ℤ, Bool, String, List, Result, Bytes, M}

-- svpdt.Coin, with its big.Int.
pub record DtCoin : Type 0 where
  pub denom : String
  pub amount : ℤ

pub record Caveats (O : Type 0) : Type 0 where
  pub actions : List String
  pub subaccounts : List ℕ
  pub budget : List DtCoin
  pub svc_budget : List DtCoin
  pub settlement : String
  pub expires : ℤ
  pub redelegable : Bool
  pub redelegate_to : O

pub record Payload (O : Type 0) : Type 0 where
  pub audience : String
  pub caveats : Caveats O

pub record Token (O : Type 0) : Type 0 where
  pub payload : Payload O

pub record Effective : Type 0 where
  pub actions : List String
  pub subaccounts : List ℕ
  pub settlement : String

pub record Verified (O : Type 0) : Type 0 where
  pub tokens : List (Token O)
  pub effective : Effective
  pub principal : String
  pub root : Bytes
  pub root_epoch : ℕ
  pub leaf_exp : ℤ
  pub chain_hash : Bytes

pub record VerifyOpts : Type 0 where
  pub chain_id : String
  pub now : ℤ
  pub max_depth : ℕ
  pub max_ttl_seconds : ℤ
  pub audience : String

pub record AttenuateParams (O : Type 0) : Type 0 where
  pub parent : Bytes
  pub issuer : String
  pub audience : String
  pub caveats : Caveats O
  pub nonce : Bytes

-- svpdt.Resolver, bound to a request: the keys that may sign for an agent id.
abbrev pub Resolver : Type 0 → Type 0
Resolver W = String → M W (List Bytes)

pub record Svpdt (W O : Type 0) : Type 0 where
  pub allows : O → String → Bool
  pub constrained_to : List String → Result O
  pub has : List String → String → Bool
  pub has_uint32 : List ℕ → ℕ → Bool
  pub new_string_set : List String → Result (List String)
  pub new_uint32_set : List ℕ → List ℕ
  pub new_coins : List DtCoin → Result (List DtCoin)
  pub verify_chain : List Bytes → Resolver W → VerifyOpts → M W (Verified O)
  pub attenuate : AttenuateParams O → M W (Token O × Bytes)
  pub pub_key_len : ℕ
