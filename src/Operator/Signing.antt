-- ===== src/Operator/Signing.antt =====
-- internal/operator/txsign.go: what a signed transaction holds.
use svpchain_research_agent.Base.{
  ℕ, ◌+◌, ℤ, ◌≡◌, refl, ◌⊎◌, ◌≢◌, inl, inr, Bool, true, false, String, List, [], ◌∷◌, Option, some,
  ok, Bytes, arith, is_zero, if◌then◌else◌, Option-cases,
}
use svpchain_research_agent.Base.Results.{Result-cases}
use svpchain_research_agent.Chain.{Msg, SdkCoin, AccountInfo}
use svpchain_research_agent.Operator.{
  FeeSpec, PrivKey, AuthInfo, Codec, new_any, pack_all, fee_coins, sign_tx,
}

module _ {X : Type 0} (k : Codec X) where
  -- No fee on the gas-free route; else the configured one, and none at all where it is zero.
  abbrev pub IsFee : FeeSpec → Bool → List SdkCoin → Type 0
  IsFee fee gas_free coins =
      ((gas_free ≡ true) × (coins ≡ []))
      ⊎ ((gas_free ≡ false)
          × (amount : ℤ) × (k.int_from_string fee.amount ≡ some amount)
          × (coins ≡ (
              if is_zero amount then [] else record { denom = fee.denom; amount = amount } ∷ [])))

  fee_coins-IsFee :
      (fee : FeeSpec) (gas_free : Bool) (coins : List SdkCoin)
      → fee_coins k fee gas_free ≡ ok coins
      → IsFee fee gas_free coins
  unfolding fee_coins
  fee_coins-IsFee fee true coins h = inl (refl, ground arith)
  fee_coins-IsFee fee false coins h = elim (Option-cases (k.int_from_string fee.amount)) [
    | inl q ↦ absurd (ground arith)
    | inr (amount, q) ↦ inr (refl, amount, q, ground arith)
  ]

  new_any-eq : {A : Type 0} (failure : A → Option _) (a b : A) → new_any failure a ≡ ok b → b ≡ a
  unfolding new_any
  new_any-eq failure a b h = ground arith

  -- What packs is packed as it is, in order.
  pack_all-eq-ok : (i : ℕ) (ms ps : List (Msg X)) → pack_all k i ms ≡ ok ps → ps ≡ ms
  unfolding pack_all
  pack_all-eq-ok i [] ps h = ground arith
  pack_all-eq-ok i (m ∷ ms) ps h = elim (Result-cases (new_any k.pack_failure m)) [
    | inr (x, q) ↦ absurd (ground arith)
    | inl (p, q) ↦ elim (Result-cases (pack_all k (i + 1) ms)) [
      | inr (x, r) ↦ absurd (ground arith)
      | inl (rest, r) ↦
          let same = new_any-eq k.pack_failure m p q in
          let tail = pack_all-eq-ok (i + 1) ms rest r in ground arith
    ]
  ]

  module _ (priv : PrivKey) (chain_id : String) (acct : AccountInfo) (msgs : List (Msg X))
      (fee : FeeSpec) (gas_free : Bool) where
    -- The key, the account's sequence and the gas limit go with the fee.
    abbrev pub auth_info : List SdkCoin → AuthInfo
    auth_info coins = record {
      public_key = priv.pub_key;
      sequence = acct.sequence;
      fee_amount = coins;
      gas_limit = fee.gas_limit;
    }

    pub record IsSigned (raw : Bytes) : Type 0 where
      pub filled : msgs ≢ []
      pub body_bytes : Bytes
      pub is_body : k.marshal_body msgs ≡ ok body_bytes
      pub coins : List SdkCoin
      pub is_fee : IsFee fee gas_free coins
      pub auth_info_bytes : Bytes
      pub is_auth_info : k.marshal_auth_info (auth_info coins) ≡ ok auth_info_bytes
      pub sign_bytes : Bytes
      pub is_sign_bytes :
          k.direct_sign_bytes body_bytes auth_info_bytes chain_id acct.account_number
          ≡ ok sign_bytes
      pub signature : Bytes
      pub is_signature : priv.sign sign_bytes ≡ ok signature
      pub is_raw :
          k.marshal_tx_raw (record {
            body_bytes = body_bytes;
            auth_info_bytes = auth_info_bytes;
            signatures = signature ∷ [];
          })
          ≡ ok raw

    -- A transaction that is signed holds the given messages, of which there is one at least, in
    -- their order; its fee is none on the gas-free route and else the configured one, read as an
    -- integer and left out where it is zero; and its one signature is the key's, over the bytes of
    -- body and auth info for this chain id and the account's number, with the account's sequence.
    pub sign_tx-IsSigned :
        (raw : Bytes) → sign_tx k priv chain_id acct msgs fee gas_free ≡ ok raw → IsSigned raw
    unfolding sign_tx
    sign_tx-IsSigned raw h = elim (Result-cases (pack_all k 0 msgs)) [
      | inr (x, q) ↦ absurd (ground arith)
      | inl (anys, q) ↦ elim (Result-cases (k.marshal_body anys)) [
        | inr (x, r) ↦ absurd (ground arith)
        | inl (body, r) ↦ elim (Result-cases (fee_coins k fee gas_free)) [
          | inr (x, f) ↦ absurd (ground arith)
          | inl (coins, f) ↦ elim (Result-cases (new_any k.pack_key_failure priv.pub_key)) [
            | inr (x, t) ↦ absurd (ground arith)
            | inl (key, t) ↦
                let same_key = new_any-eq k.pack_key_failure priv.pub_key key t in
                let same = pack_all-eq-ok 0 msgs anys q in
                elim (Result-cases (k.marshal_auth_info (auth_info coins))) [
                  | inr (x, a) ↦ absurd (ground arith)
                  | inl (auth, a) ↦
                      elim (Result-cases
                        (k.direct_sign_bytes body auth chain_id acct.account_number)) [
                          | inr (x, b) ↦ absurd (ground arith)
                          | inl (bytes, b) ↦ elim (Result-cases (priv.sign bytes)) [
                            | inr (x, g) ↦ absurd (ground arith)
                            | inl (sig, g) ↦ record {
                              filled = ground arith;
                              body_bytes = body;
                              is_body = rw same at r;
                              coins = coins;
                              is_fee = fee_coins-IsFee fee gas_free coins f;
                              auth_info_bytes = auth;
                              is_auth_info = a;
                              sign_bytes = bytes;
                              is_sign_bytes = b;
                              signature = sig;
                              is_signature = g;
                              is_raw = ground arith;
                            }
                          ]
                        ]
                ]
          ]
        ]
      ]
    ]
