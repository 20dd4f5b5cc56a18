-- ===== src/Toolbridge/Table.antt =====
-- internal/toolbridge/adapter.go: what registering fresh tools makes of a registry.
use svpchain_research_agent.Base.{
  ◌≡◌, refl, ap, sym, ◌∙◌, Bool, true, false, not, ◌&&◌, String, List, [], ◌∷◌, ◌++◌, map, none, ok,
  arith, string_eq, lookup, insert, M, append_assoc, append-nil,
}
use svpchain_research_agent.Base.Results.{◌>>=◌}
use svpchain_research_agent.Json.{RawMessage}
use svpchain_research_agent.Toolbridge.{Op, Registry, has_key, add}
use svpchain_research_agent.Toolbridge.Families.{add_all}

abbrev pub first : {A : Type 0} → String × A → String
first e = e.0

abbrev pub names : {A : Type 0} → List (String × A) → List String
names es = map first es

-- No name is among those seen, or comes twice.
abbrev pub are_fresh : List String → List String → Bool
are_fresh seen [] = true
are_fresh seen (t ∷ ts) = not (has_key seen t) && are_fresh (seen ++ t ∷ []) ts

has-lookup :
    {V : Type 0} (t : String) (m : List (String × V))
    → has_key (names m) t ≡ false
    → lookup t m ≡ none
unfolding lookup
has-lookup t [] h = refl
has-lookup t ((k, v) ∷ m) h = ground (arith, has-lookup t m)

insert-fresh :
    {V : Type 0} (t : String) (new : V) (m : List (String × V))
    → has_key (names m) t ≡ false
    → insert t new m ≡ m ++ (t, new) ∷ []
unfolding insert
insert-fresh t new [] h = refl
insert-fresh t new ((k, v) ∷ m) h = ground (arith, insert-fresh t new m)

names-append : {V : Type 0} (m n : List (String × V)) → names (m ++ n) ≡ names m ++ names n
names-append [] n = refl
names-append (e ∷ m) n = ap (λ r. first e ∷ r) (names-append m n)

module _ {S A : Type 0} where
  -- The registry of one family alone.
  abbrev pub entries_of : (skill : String) → List (String × (RawMessage → M S A)) → Registry S A
  entries_of skill [] = []
  entries_of skill ((tool, call) ∷ ts) =
      (tool, record { skill = skill; tool = tool; call = call }) ∷ entries_of skill ts

  add-fresh :
      (skill tool : String) (call : RawMessage → M S A) (r : Registry S A)
      → has_key (names r) tool ≡ false
      → add skill tool call r
        ≡ ok (r ++ (tool, record { skill = skill; tool = tool; call = call }) ∷ [])
  unfolding add
  add-fresh skill tool call r new =
      let op : Op S A = record { skill = skill; tool = tool; call = call } in
      ground (arith, has-lookup tool r new, insert-fresh tool op r new)

  pub add_all-append :
      (skill : String) (tools : List (String × (RawMessage → M S A))) (r : Registry S A)
      → are_fresh (names r) (names tools) ≡ true
      → add_all skill tools r ≡ ok (r ++ entries_of skill tools)
  unfolding add_all
  add_all-append skill [] r h = ap ok (sym (append-nil r))
  add_all-append skill ((tool, call) ∷ ts) r h =
      let op : Op S A = record { skill = skill; tool = tool; call = call } in
      let new : has_key (names r) tool ≡ false = ground arith in
      let rest : are_fresh (names r ++ tool ∷ []) (names ts) ≡ true = ground arith in
      let seen : names (r ++ (tool, op) ∷ []) ≡ names r ++ tool ∷ [] =
        names-append r ((tool, op) ∷ []) in
      ap (λ x. x >>= add_all skill ts) (add-fresh skill tool call r new)
      ∙ add_all-append skill ts (r ++ (tool, op) ∷ []) (rw seen rest)
      ∙ ap ok (append_assoc r ((tool, op) ∷ []) (entries_of skill ts))
