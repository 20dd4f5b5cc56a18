-- ===== src/Intermediary/Minting.antt =====
-- What a hop lets through, and what it mints from it.
use svpchain_research_agent.Base.{◌≡◌, inl, inr, true, List, some, ok, Bytes, arith, get_last?}
use svpchain_research_agent.Base.Results.{Result-cases}
use svpchain_research_agent.Svpdt.{Caveats, Token, Verified}
use svpchain_research_agent.Intermediary.{
  Config, ForwardInput, admit, mint, narrow, child_params, last_of,
}
use svpchain_research_agent.Intermediary.Narrow.{IsNarrowed, narrow-IsNarrowed}

module _ {S O : Type 0} (cfg : Config S O) where
  -- The inbound chain verifies, and its leaf may be passed on to the target.
  pub record IsAdmitted (s : S) (req : ForwardInput) (tokens : List Bytes) (v : Verified O)
      (leaf : Token O) : Type 0 where
    pub verified : (cfg.verify req.proof s).0 ≡ ok (tokens, v)
    pub is_leaf : get_last? v.tokens ≡ some leaf
    pub redelegable : leaf.payload.caveats.redelegable ≡ true
    pub allowed : cfg.allows leaf.payload.caveats.redelegate_to req.downstream_did ≡ true

  last_of-eq-ok : {A : Type 0} (xs : List A) (a : A) → last_of xs ≡ ok a → get_last? xs ≡ some a
  last_of-eq-ok xs a h = ground arith

  pub admit-IsAdmitted :
      (s : S) (req : ForwardInput) (tokens : List Bytes) (v : Verified O) (leaf : Token O)
      → (admit cfg req s).0 ≡ ok (tokens, v, leaf)
      → IsAdmitted s req tokens v leaf
  unfolding admit
  admit-IsAdmitted s req tokens v leaf h = elim (Result-cases (cfg.verify req.proof s).0) [
    | inr (x, q) ↦ absurd (ground arith)
    | inl ((ts, w), q) ↦ elim (Result-cases (last_of w.tokens)) [
      | inr (x, r) ↦ absurd (ground arith)
      | inl (l, r) ↦
          let same_tokens : ts ≡ tokens = ground arith in
          let same_verified : w ≡ v = ground arith in
          let same_leaf : l ≡ leaf = ground arith in
          record {
            verified = ground arith;
            is_leaf = rw (← same_verified, ← same_leaf) (last_of-eq-ok w.tokens l r);
            redelegable = ground arith;
            allowed = ground arith;
          }
    ]
  ]

  -- How a child credential came about.
  pub record IsMinted (req : ForwardInput) (tokens : List Bytes) (leaf child : Token O)
      (encoded : Bytes) : Type 0 where
    pub caveats : Caveats O
    pub narrowed : IsNarrowed cfg leaf.payload.caveats req.narrow caveats
    pub parent : Bytes
    pub is_parent : get_last? tokens ≡ some parent
    pub nonce : Bytes
    pub before : S
    pub attenuated :
        (cfg.attenuate (child_params cfg req parent caveats nonce) before).0 ≡ ok (child, encoded)

  pub mint-IsMinted :
      (s : S) (req : ForwardInput) (tokens : List Bytes) (leaf child : Token O) (encoded : Bytes)
      → (mint cfg req tokens leaf s).0 ≡ ok (child, encoded)
      → IsMinted req tokens leaf child encoded
  unfolding mint
  mint-IsMinted s req tokens leaf child encoded h =
      let n = narrow cfg leaf.payload.caveats req.narrow s in
      elim (Result-cases n.0) [
        | inr (x, q) ↦ absurd (ground arith)
        | inl (c, q) ↦ elim (Result-cases (last_of tokens)) [
          | inr (x, r) ↦ absurd (ground arith)
          | inl (p, r) ↦ elim (Result-cases (cfg.draw_nonce n.1).0) [
            | inr (x, t) ↦ absurd (ground arith)
            | inl (k, t) ↦ record {
              caveats = c;
              narrowed = narrow-IsNarrowed cfg leaf.payload.caveats c req.narrow s q;
              parent = p;
              is_parent = last_of-eq-ok tokens p r;
              nonce = k;
              before = (cfg.draw_nonce n.1).1;
              attenuated = ground arith;
            }
          ]
        ]
      ]
