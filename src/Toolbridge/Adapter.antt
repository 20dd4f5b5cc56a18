-- ===== src/Toolbridge/Adapter.antt =====
-- internal/toolbridge/adapter.go: when an adapted handler runs, and what it may answer.
use svpchain_research_agent.Base.{
  ◌≡◌, refl, ◌⊎◌, inl, inr, true, false, Bool-cases, String, List, [], ◌∷◌, Option, none, some, ok,
  err, Error, arith, string_eq, All,
}
use svpchain_research_agent.Base.Results.{Result-cases}
use svpchain_research_agent.Json.{Json, RawMessage, unmarshal_map}
use svpchain_research_agent.Toolbridge.{
  CallToolResult, Native, Handler, decode_args, has_key, unknown_key, entries, check_keys,
  json_keys_of, is_empty, adapt, adapt_native, adapt_strict_native, accept_result,
}

abbrev IsAllowed : List String → String × Json → Type 0
IsAllowed allowed e = has_key allowed e.0 ≡ true

none-AreAllowed :
    (allowed : List String) (m : List (String × Json))
    → unknown_key allowed m ≡ none
    → All (IsAllowed allowed) m
unfolding unknown_key
none-AreAllowed allowed [] h = tt
none-AreAllowed allowed ((k, v) ∷ m) h = elim (Bool-cases (has_key allowed k)) [
  | inl q ↦ (q, none-AreAllowed allowed m (ground arith))
  | inr q ↦ absurd (ground arith)
]

-- The arguments are none at all, or a map whose keys the input type has.
pub AreKnown : List String → RawMessage → Type 0
AreKnown allowed raw =
    (is_empty raw ≡ true)
    ⊎ ((top : Option (List (String × Json))) × (unmarshal_map raw ≡ ok top)
        × All (IsAllowed allowed) (entries top))

check_keys-AreKnown :
    (allowed : List String) (raw : RawMessage)
    → check_keys allowed raw ≡ ok tt
    → AreKnown allowed raw
unfolding check_keys AreKnown
check_keys-AreKnown allowed raw h = elim (Bool-cases (is_empty raw)) [
  | inl q ↦ inl q
  | inr q ↦ elim (Result-cases (unmarshal_map raw)) [
    | inr (x, p) ↦ absurd (ground arith)
    | inl (top, p) ↦ inr (top, p, none-AreAllowed allowed (entries top) (ground arith))
  ]
]

AreAllowed-none :
    (allowed : List String) (m : List (String × Json))
    → All (IsAllowed allowed) m
    → unknown_key allowed m ≡ none
unfolding unknown_key
AreAllowed-none allowed [] h = refl
AreAllowed-none allowed ((k, v) ∷ m) (known, h) = rw known (AreAllowed-none allowed m h)

AreKnown-check_keys :
    (allowed : List String) (raw : RawMessage)
    → AreKnown allowed raw
    → check_keys allowed raw ≡ ok tt
unfolding check_keys AreKnown
AreKnown-check_keys allowed raw (inl q) = rw q refl
AreKnown-check_keys allowed raw (inr (top, p, all)) = elim (Bool-cases (is_empty raw)) [
  | inl q ↦ rw q refl
  | inr q ↦ rw (q, p, AreAllowed-none allowed (entries top) all) refl
]

module _ {S A : Type 0} (raw : RawMessage) (s : S) where
  -- The strict adapter refuses arguments of which some top-level key is not one of the input
  -- type's, with nothing done; with any other it is the native adapter.
  pub adapt_strict-AreKnown :
      (f : Native S A)
      → ((e : Error) × (AreKnown (json_keys_of f.input_fields) raw → ⊥)
          × (adapt_strict_native f raw s ≡ (err e, s)))
        ⊎ AreKnown (json_keys_of f.input_fields) raw
          × (adapt_strict_native f raw s ≡ adapt_native f raw s)
  unfolding adapt_strict_native
  adapt_strict-AreKnown f = elim (Result-cases (check_keys (json_keys_of f.input_fields) raw)) [
    | inr (e, q) ↦ inl (
      e,
      λ known.
          let passed = AreKnown-check_keys (json_keys_of f.input_fields) raw known in ground arith,
      ground arith,
    )
    | inl (u, q) ↦
        inr (check_keys-AreKnown (json_keys_of f.input_fields) raw (ground arith), ground arith)
  ]

  -- The handler's own answer to the arguments that were read: it gave this output, and no result
  -- that says it failed.
  pub record IsAnswered (h : Handler S A) (out : A) : Type 0 where
    pub input : h.Input
    pub result : Option CallToolResult
    pub decoded : decode_args h.zero_input h.unmarshal_input raw ≡ ok input
    pub answered : (h.call input s).0 ≡ ok (result, out)
    pub no_failure : (r : CallToolResult) → result ≡ some r → r.is_error ≡ false

  -- What an adapted MCP handler answers with success is the output of the handler on the arguments
  -- that were read, which gave it with no error and with no result that says it failed.
  pub adapt-IsAnswered : (h : Handler S A) (out : A) → (adapt h raw s).0 ≡ ok out → IsAnswered h out
  unfolding adapt accept_result
  adapt-IsAnswered h out q = elim (Result-cases (decode_args h.zero_input h.unmarshal_input raw)) [
    | inr (x, p) ↦ absurd (ground arith)
    | inl (input, p) ↦ elim (Result-cases (h.call input s).0) [
      | inr (x, r) ↦ absurd (ground arith)
      | inl ((result, o), r) ↦ record {
        input = input;
        result = result;
        decoded = p;
        answered = ground arith;
        no_failure = λ res same. ground arith;
      }
    ]
  ]
