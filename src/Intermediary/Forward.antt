-- ===== src/Intermediary/Forward.antt =====
-- What a forwarding task hands to the outside, and in which order.
use svpchain_research_agent.Base.{
  suc, ◌≡◌, refl, ap, ◌⊎◌, inl, inr, List, [], ◌∷◌, Result, ok, err, Bytes, arith, Error, wrap, str,
  length, length-append,
}
use svpchain_research_agent.Base.Base64.{encode}
use svpchain_research_agent.Base.Results.{Result-cases}
use svpchain_research_agent.Svpdt.{Token, Verified}
use svpchain_research_agent.Intermediary.{
  Config, ForwardInput, ForwardOutput, admit, charge, mint, forwarded_chain, forward, grant_view,
}
use svpchain_research_agent.Intermediary.Minting.{
  IsAdmitted, admit-IsAdmitted, IsMinted, mint-IsMinted,
}
use svpchain_research_agent.Intermediary.Still.{log-admit, log-mint}
use svpchain_research_agent.Intermediary.Traced.{traced, events, traced-IsLog, forward-Keeps}
use svpchain_research_agent.Intermediary.Log.{Event, forwarded, IsLog, paid, charge-IsCharge}

module _ {S O : Type 0} (cfg : Config S O) where
  module _ (log : S → List Event) (quiet : IsLog cfg log) where
    -- What a log may say after a task: nothing new, a fee handed to the recorder, or, after the
    -- fee where one is asked, the one envelope and the chain that has grown by a minted child.
    pub record IsSent (s : S) (req : ForwardInput) (after : List Event) : Type 0 where
      pub tokens : List Bytes
      pub verified : Verified O
      pub leaf : Token O
      pub child : Token O
      pub encoded : Bytes
      pub admitted : IsAdmitted cfg s req tokens verified leaf
      pub minted : IsMinted cfg req tokens leaf child encoded
      pub ordered :
          after
          ≡ forwarded req.downstream_endpoint req.envelope (forwarded_chain cfg req encoded)
            ∷ paid req.proof req.fee (log s)

    abbrev pub MayLog : S → ForwardInput → List Event → Type 0
    MayLog s req after =
        (after ≡ log s) ⊎ (after ≡ paid req.proof req.fee (log s)) ⊎ IsSent s req after

    -- A task that succeeded: what was sent, and what the reply to the caller says of it.
    pub record IsDone (s : S) (req : ForwardInput) (out : ForwardOutput) (after : List Event)
        : Type 0 where
      pub sent : IsSent s req after
      pub principal : out.principal ≡ sent.verified.principal
      pub depth : out.depth ≡ suc (length req.proof)
      pub child_grant : out.child_grant ≡ grant_view sent.child.payload.caveats
      pub recorded : out.recorded ≡ req.fee

    abbrev pub IsOutcome : S → ForwardInput → Result ForwardOutput → List Event → Type 0
    IsOutcome s req r after =
        ((out : ForwardOutput) × (r ≡ ok out) × IsDone s req out after)
        ⊎ ((e : Error) × (r ≡ err e) × MayLog s req after)

    -- The last step, after a verified chain, a charge and a minted child.
    module _ (s : S) (req : ForwardInput) (ts : List Bytes) (v : Verified O) (l c : Token O)
        (b : Bytes) where
      sent-IsOutcome :
          (admit cfg req s).0 ≡ ok (ts, v, l)
          → (charge cfg req.proof req.fee (admit cfg req s).1).0 ≡ ok req.fee
          → (mint cfg req ts l (charge cfg req.proof req.fee (admit cfg req s).1).1).0 ≡ ok (c, b)
          → log (mint cfg req ts l (charge cfg req.proof req.fee (admit cfg req s).1).1).1
            ≡ paid req.proof req.fee (log s)
          → IsOutcome s req (forward cfg req s).0 (log (forward cfg req s).1)
      unfolding forward
      sent-IsOutcome q r t u =
          let s₂ = (charge cfg req.proof req.fee (admit cfg req s).1).1 in
          let s₃ = (mint cfg req ts l s₂).1 in
          let chain = forwarded_chain cfg req b in
          let s₄ = (cfg.send req.downstream_endpoint req.envelope chain s₃).1 in
          let logged = quiet.send_logs req.downstream_endpoint req.envelope chain s₃ in
          let sent : IsSent s req (log s₄) = record {
            tokens = ts;
            verified = v;
            leaf = l;
            child = c;
            encoded = b;
            admitted = admit-IsAdmitted cfg s req ts v l q;
            minted = mint-IsMinted cfg s₂ req ts l c b t;
            ordered = ground arith;
          } in
          let last : (forward cfg req s).1 ≡ s₄ =
            elim (Result-cases (cfg.send req.downstream_endpoint req.envelope chain s₃).0) [
              | inr (x, w) ↦ ground arith
              | inl (reply, w) ↦ ground arith
            ] in
          elim (Result-cases (cfg.send req.downstream_endpoint req.envelope chain s₃).0) [
            | inr (x, w) ↦ inr (
              wrap "forward to %s: %w" (str req.downstream_did ∷ []) x,
              ground arith,
              inr (inr (rw last sent)),
            )
            | inl (reply, w) ↦
                let out : ForwardOutput = record {
                  principal = v.principal;
                  depth = length chain;
                  child_grant = grant_view c.payload.caveats;
                  recorded = req.fee;
                  reply = reply;
                } in
                let lengths = length-append req.proof (encode b ∷ []) in
                let grown : length chain ≡ suc (length req.proof) = ground arith in
                let done : IsDone s req out (log s₄) = record {
                  sent = sent;
                  principal = refl;
                  depth = grown;
                  child_grant = refl;
                  recorded = refl;
                } in
                inl (out, ground arith, rw last done)
          ]

    logged-IsOutcome :
        (s : S) (req : ForwardInput)
        → IsOutcome s req (forward cfg req s).0 (log (forward cfg req s).1)
    unfolding forward
    logged-IsOutcome s req =
        let first = log-admit cfg log quiet.still req s in
        elim (Result-cases (admit cfg req s).0) [
          | inr (x, q) ↦ inr (x, ground arith, inl (ground arith))
          | inl ((ts, v, l), q) ↦
              let s₁ = (admit cfg req s).1 in
              let s₂ = (charge cfg req.proof req.fee s₁).1 in
              let still = log-mint cfg log quiet.still req ts l s₂ in
              let same = ap (paid req.proof req.fee) first in
              elim (charge-IsCharge cfg log quiet req.proof req.fee s₁) [
                | inr (x, r, inl u) ↦ inr (x, ground arith, inl (ground arith))
                | inr (x, r, inr u) ↦ inr (x, ground arith, inr (inl (ground arith)))
                | inl (r, u) ↦ elim (Result-cases (mint cfg req ts l s₂).0) [
                  | inr (x, t) ↦ inr (x, ground arith, inr (inl (ground arith)))
                  | inl ((c, b), t) ↦ sent-IsOutcome s req ts v l c b q r t (ground arith)
                ]
              ]
        ]

module _ {S O : Type 0} (cfg : Config S O) where
  -- What a task does, by the record of the traced agent, which starts from the record `l`. The
  -- traced agent gives the answer and the state of the agent itself.
  pub record IsTraced (s : S) (l : List Event) (req : ForwardInput) : Type 0 where
    pub same_answer : (forward (traced cfg) req (s, l)).0 ≡ (forward cfg req s).0
    pub same_state : (forward (traced cfg) req (s, l)).1.0 ≡ (forward cfg req s).1
    pub outcome :
        IsOutcome
          (traced cfg)
          (events cfg)
          (traced-IsLog cfg)
          (s, l)
          req
          (forward (traced cfg) req (s, l)).0
          (events cfg (forward (traced cfg) req (s, l)).1)

  -- Every run of a forwarding task, of any agent, with its calls of the recorder and of the sender
  -- written down as they are made; which changes neither its answer nor its state. A success has
  -- verified the chain, found its leaf re-delegable and open to the target, handed exactly the
  -- asked fee (if any) to the recorder and then exactly one envelope to the sender, with the
  -- inbound chain extended by one child that is minted for the trimmed target from the leaf's
  -- narrowed caveats; its output reports the verified principal, one link more than the proof had,
  -- the child's caveats and the fee. A failure has handed out nothing, or the fee alone, or has got
  -- as far as the sender with all of that in place.
  pub forward-IsOutcome : (s : S) (l : List Event) (req : ForwardInput) → IsTraced s l req
  forward-IsOutcome s l req = record {
    same_answer = ap (λ x. x.0) (forward-Keeps cfg req (s, l));
    same_state = ap (λ x. x.1) (forward-Keeps cfg req (s, l));
    outcome = logged-IsOutcome (traced cfg) (events cfg) (traced-IsLog cfg) (s, l) req;
  }
