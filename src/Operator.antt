-- ===== src/Operator.antt =====
-- internal/operator: the operator key and the fee-aware signing of the agent's own transactions.
pub mod Signing
use svpchain_research_agent.Base.{
  ℕ, zero, suc, ◌+◌, ℤ, Bool, true, false, not, String, List, [], ◌∷◌, map, Option, none, some,
  Result, ok, err, Error, errorf, wrap, num, str, Bytes, is_zero, null, if◌then◌else◌, ◌==◌,
  string_eq, trim_space,
}
use svpchain_research_agent.Base.Results.{◌>>=◌, ◌>>◌, guard, or_fail, map_err}
use svpchain_research_agent.Chain.{Msg, SdkCoin, AccountInfo}

pub record FeeSpec : Type 0 where
  pub denom : String
  pub amount : String
  pub gas_limit : ℕ

pub record PrivKey : Type 0 where
  pub pub_key : Bytes
  pub sign : Bytes → Result Bytes

-- The AuthInfo of a transaction with one direct-mode signer.
pub record AuthInfo : Type 0 where
  pub public_key : Bytes
  pub sequence : ℕ
  pub fee_amount : List SdkCoin
  pub gas_limit : ℕ

pub record TxRaw : Type 0 where
  pub body_bytes : Bytes
  pub auth_info_bytes : Bytes
  pub signatures : List Bytes

-- Protobuf, the codec and the chain's own message rules, which stand outside the repository.
pub record Codec (X : Type 0) : Type 0 where
  pub pack_failure : Msg X → Option Error
  pub pack_key_failure : Bytes → Option Error
  pub marshal_body : List (Msg X) → Result Bytes
  pub marshal_auth_info : AuthInfo → Result Bytes
  pub marshal_tx_raw : TxRaw → Result Bytes
  pub direct_sign_bytes : Bytes → Bytes → String → ℕ → Result Bytes
  pub int_from_string : String → Option ℤ
  pub unwrap_delegated_msg : Msg X → Msg X
  pub is_short_term_clob_msgs : List (Msg X) → Bool
  pub validate_basic : Msg X → Result (Unit {0})

-- codectypes.NewAnyWithValue: the Any holds the value that it packs.
unfoldable pub new_any : {A : Type 0} → (A → Option Error) → A → Result A
new_any failure a = elim (failure a) [ none ↦ ok a | some e ↦ err e ]

module _ {X : Type 0} (k : Codec X) where
  unfoldable pub pack_all : ℕ → List (Msg X) → Result (List (Msg X))
  pack_all i [] = ok []
  pack_all i (m ∷ ms) =
      map_err (wrap "pack msg[%d]" (num i ∷ [])) (new_any k.pack_failure m) >>= λ a.
      pack_all (i + 1) ms >>= λ rest. ok (a ∷ rest)

  unfoldable pub fee_coins : FeeSpec → Bool → Result (List SdkCoin)
  fee_coins fee true = ok []
  fee_coins fee false =
      or_fail (k.int_from_string fee.amount)
        (errorf "fee amount %q is not a valid integer" (str fee.amount ∷ []))
      >>= λ amt. ok (if is_zero amt then [] else record { denom = fee.denom; amount = amt } ∷ [])

  unfoldable pub sign_tx :
      PrivKey → String → AccountInfo → List (Msg X) → FeeSpec → Bool → Result Bytes
  sign_tx priv chain_id acct msgs fee gas_free = do
    guard (not (null msgs)) (errorf "no messages to sign" [])
    anys ← pack_all 0 msgs
    body_bytes ← map_err (wrap "marshal TxBody" []) (k.marshal_body anys)
    coins ← fee_coins fee gas_free
    key ← map_err (wrap "pack pubkey" []) (new_any k.pack_key_failure priv.pub_key)
    auth_info_bytes ← map_err (wrap "marshal AuthInfo" []) (
        k.marshal_auth_info (record {
          public_key = key;
          sequence = acct.sequence;
          fee_amount = coins;
          gas_limit = fee.gas_limit;
        }))
    sign_bytes ←
        map_err (wrap "compute sign-bytes" [])
          (k.direct_sign_bytes body_bytes auth_info_bytes chain_id acct.account_number)
    sig ← map_err (wrap "sign" []) (priv.sign sign_bytes)
    map_err (wrap "marshal TxRaw" []) (
        k.marshal_tx_raw (record {
          body_bytes = body_bytes;
          auth_info_bytes = auth_info_bytes;
          signatures = sig ∷ [];
        }))

  -- A wrapper is judged by the message inside it.
  unfoldable pub gas_free_for : List (Msg X) → Bool
  gas_free_for msgs = k.is_short_term_clob_msgs (map k.unwrap_delegated_msg msgs)

-- Where the key comes from: the environment, then the key file.
pub record KeySource : Type 0 where
  pub env_var : String
  pub read_file : String → Result String
  pub parse_priv_key : String → Result PrivKey
  pub derive_address : PrivKey → String

key_text : KeySource → String → Result String
key_text src key_file =
    let from_env = trim_space src.env_var in
    if from_env == ""
    then (if key_file == ""
        then ok from_env
        else (map_err (wrap "read operator key file" []) (src.read_file key_file) >>= λ raw.
            ok (trim_space raw)))
    else ok from_env

-- `none` is a keyless deployment.
unfoldable pub load : KeySource → String → Result (Option (PrivKey × String))
unfolding key_text
load src key_file = do
  hex_key ← key_text src key_file
  if hex_key == ""
      then ok none
      else (map_err (wrap "parse operator key" []) (src.parse_priv_key hex_key) >>= λ priv.
          ok (some (priv, src.derive_address priv)))
