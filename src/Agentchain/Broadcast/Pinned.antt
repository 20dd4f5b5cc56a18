-- ===== src/Agentchain/Broadcast/Pinned.antt =====
-- A tenant lands only what its own owner has signed.
use svpchain_research_agent.Base.{
  ◌≡◌, refl, ◌∙◌, ap, inl, inr, String, List, [], ◌∷◌, Option, none, some, ok, Bytes, arith, eq_iff,
  Option-cases, string_eq,
}
use svpchain_research_agent.Base.Base64.{decode}
use svpchain_research_agent.Base.Results.{Result-cases}
use svpchain_research_agent.Chain.{BroadcastResult}
use svpchain_research_agent.Delegated.{TenantContext}
use svpchain_research_agent.Agentchain.{AgentDeps, authorize}
use svpchain_research_agent.Agentchain.Broadcast.{
  TxReader, key_address, only_signer, signer_address, broadcast_signed_tx,
}
use svpchain_research_agent.Agentchain.Builds.Owned.{IsTenant, authorize-IsTenant}

module _ {K W P : Type 0} (reader : TxReader K) (d : AgentDeps W P) where
  -- The transaction names one signer, with a public key, and the address of that key is the owner's.
  pub record IsSignedBy (raw : Bytes) (owner : String) : Type 0 where
    pub auth_info : Bytes
    pub has_auth_info : reader.auth_info_bytes raw ≡ ok auth_info
    pub key : K
    pub one_signer : reader.signer_infos auth_info ≡ ok (some key ∷ [])
    pub address : Bytes
    pub unpacked : reader.unpack_address key ≡ ok address
    pub is_owner : reader.bech32 address ≡ owner

  only_signer-key :
      (infos : List (Option K)) (owner : String)
      → only_signer reader infos ≡ ok owner
      → (k : K) × (infos ≡ some k ∷ []) × (key_address reader (some k) ≡ ok owner)
  unfolding only_signer key_address
  only_signer-key [] owner h = absurd (ground arith)
  only_signer-key (none ∷ []) owner h = absurd (ground arith)
  only_signer-key (some k ∷ []) owner h = (k, refl, h)
  only_signer-key (k ∷ l ∷ ks) owner h = absurd (ground arith)

  signer_address-IsSignedBy :
      (raw : Bytes) (owner : String) → signer_address reader raw ≡ ok owner → IsSignedBy raw owner
  unfolding signer_address key_address
  signer_address-IsSignedBy raw owner h = elim (Result-cases (reader.auth_info_bytes raw)) [
    | inr (x, q) ↦ absurd (ground arith)
    | inl (ai, q) ↦ elim (Result-cases (reader.signer_infos ai)) [
      | inr (x, r) ↦ absurd (ground arith)
      | inl (infos, r) ↦
          let (k, one, is) = only_signer-key infos owner (ground arith) in
          elim (Result-cases (reader.unpack_address k)) [
            | inr (x, u) ↦ absurd (ground arith)
            | inl (a, u) ↦ record {
              auth_info = ai;
              has_auth_info = q;
              key = k;
              one_signer = r ∙ ap ok one;
              address = a;
              unpacked = u;
              is_owner = ground arith;
            }
          ]
    ]
  ]

  pub record IsLanded (w : W) (tenant : Option TenantContext) (text : String)
      (res : BroadcastResult) : Type 0 where
    pub owner : String
    pub is_tenant : IsTenant d w tenant owner
    pub raw : Bytes
    pub decoded : decode text ≡ some raw
    pub signed_by : IsSignedBy raw owner
    pub answered : (d.broadcast_sync raw (authorize d tenant w).1).0 ≡ ok res

  -- A broadcast that succeeds was made for a tenant that the policy engine let pass, of the very
  -- bytes that the text decodes to, which name exactly one signer, and the address of that signer's key is the tenant's owner; its result is the
  -- chain's answer.
  pub broadcast-IsLanded :
      (w : W) (tenant : Option TenantContext) (text : String) (res : BroadcastResult)
      → (broadcast_signed_tx reader d tenant text w).0 ≡ ok res
      → IsLanded w tenant text res
  unfolding broadcast_signed_tx
  broadcast-IsLanded w tenant text res h = elim (Result-cases (authorize d tenant w).0) [
    | inr (x, q) ↦ absurd (ground arith)
    | inl (owner, q) ↦ elim (Option-cases (decode text)) [
      | inl r ↦ absurd (ground arith)
      | inr (raw, r) ↦ elim (Result-cases (signer_address reader raw)) [
        | inr (x, t) ↦ absurd (ground arith)
        | inl (signer, t) ↦
            let same : signer ≡ owner = ground (arith, eq_iff signer owner) in
            record {
              owner = owner;
              is_tenant = authorize-IsTenant d tenant w owner q;
              raw = raw;
              decoded = r;
              signed_by = signer_address-IsSignedBy raw owner (t ∙ ap ok same);
              answered = ground (arith, same, eq_iff signer owner);
            }
      ]
    ]
  ]
