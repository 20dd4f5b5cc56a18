-- ===== src/Agentchain/Broadcast.antt =====
-- internal/agentchain/broadcast.go: landing a transaction that the caller has signed. Protobuf, the
-- key registry and the address format are the fields of `TxReader`.
pub mod Pinned
use svpchain_research_agent.Base.{
  ℕ, String, List, [], ◌∷◌, Option, none, some, Result, ok, err, errorf, wrap, external, str, num,
  Bytes, M, ◌==◌, string_eq, length,
}
use svpchain_research_agent.Base.Base64.{decode}
use svpchain_research_agent.Base.Results
use svpchain_research_agent.Base.Results.{map_err, or_fail}
use svpchain_research_agent.Base.State.{◌>>=◌, ◌>>◌, lift, check, pure}
use svpchain_research_agent.Chain.{BroadcastResult}
use svpchain_research_agent.Delegated.{TenantContext}
use svpchain_research_agent.Agentchain.{AgentDeps, authorize}

-- `K` is the packed public key of a signer, which may be missing.
pub record TxReader (K : Type 0) : Type 0 where
  pub auth_info_bytes : Bytes → Result Bytes
  pub signer_infos : Bytes → Result (List (Option K))
  pub unpack_address : K → Result Bytes
  pub bech32 : Bytes → String

module _ {K : Type 0} (reader : TxReader K) where
  key_address : Option K → Result String
  key_address none = err (errorf "signer info has no public key" [])
  key_address (some k) =
      Results.◌>>=◌ (map_err (wrap "unpack signer pubkey: %w" []) (reader.unpack_address k))
        λ a. ok (reader.bech32 a)

  only_signer : List (Option K) → Result String
  unfolding key_address
  only_signer (k ∷ []) = key_address k
  only_signer ks = err (errorf "expected exactly 1 signer, got %d" (num (length ks) ∷ []))

  unfoldable pub signer_address : Bytes → Result String
  unfolding only_signer
  signer_address raw =
      Results.◌>>=◌ (map_err (wrap "unmarshal TxRaw: %w" []) (reader.auth_info_bytes raw)) λ ai.
        Results.◌>>=◌ (map_err (wrap "unmarshal AuthInfo: %w" []) (reader.signer_infos ai))
          λ infos. only_signer infos

  unfoldable pub broadcast_signed_tx :
      {W P : Type 0} → AgentDeps W P → Option TenantContext → String → M W BroadcastResult
  broadcast_signed_tx d tenant tx_raw_bytes_b64 = do
    owner ← authorize d tenant
    raw ← lift (
        or_fail (decode tx_raw_bytes_b64)
          (wrap "decode tx_raw_bytes_b64: %w" [] (external "illegal base64 data")))
    signer ← lift (map_err (wrap "decode signed tx: %w" []) (signer_address raw))
    check (signer == owner)
        (errorf "signer address %s does not match tenant owner %s" (str signer ∷ str owner ∷ []))
    res ← d.broadcast_sync raw
    pure res
