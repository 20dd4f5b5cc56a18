-- ===== src/Toolbridge/Skills.antt =====
-- internal/toolbridge/adapter.go: the tools of a registry by skill. A Go map is visited in an order
-- that is not fixed, which is the order of the list here.
use mathlib.Core.Logic.{∥∥₁_elim}
use mathlib.Core.List.{Perm, Permᴰ}
use mathlib.Core.List.Permᴰ
use svpchain_research_agent.Base.{
  ◌≡◌, refl, sym, ap, subst, ◌∙◌, String, List, [], ◌∷◌, ◌++◌, Option, none, some, arith, eq_iff,
  ◌==◌, string_eq, if◌then◌else◌, lookup, insert, lookup-insert, append_assoc, append-nil, inl, inr,
  Bool-cases,
}
use svpchain_research_agent.Base.Sort.{
  at_most, place, sort_strings, sort-Perm, IsSorted, sort-IsSorted, strings_set,
}
use svpchain_research_agent.Toolbridge.{Op, Registry}

-- Go's nil slice for a key that has no entry.
abbrev pub or_empty : Option (List String) → List String
or_empty none = []
or_empty (some tools) = tools

abbrev pub sort_groups : List (String × List String) → List (String × List String)
sort_groups [] = []
sort_groups ((skill, tools) ∷ out) = (skill, sort_strings tools) ∷ sort_groups out

-- What a map of groups holds for tools: no entry for none, and else a sorted one.
abbrev pub sorted : Option (List String) → Option (List String)
sorted none = none
sorted (some tools) = some (sort_strings tools)

abbrev pub kept : List String → Option (List String)
kept [] = none
kept (t ∷ ts) = some (t ∷ ts)

kept-append : (ts : List String) (t : String) → some (ts ++ t ∷ []) ≡ kept (ts ++ t ∷ [])
kept-append [] t = refl
kept-append (u ∷ ts) t = refl

or_empty-kept : (ts : List String) → or_empty (kept ts) ≡ ts
or_empty-kept [] = refl
or_empty-kept (t ∷ ts) = refl

lookup-sort_groups :
    (skill : String) (out : List (String × List String))
    → lookup skill (sort_groups out) ≡ sorted (lookup skill out)
unfolding lookup
lookup-sort_groups skill [] = refl
lookup-sort_groups skill ((s, tools) ∷ out) = ground (arith, lookup-sort_groups skill out)

kept-place : (x : String) (l : List String) → some (place x l) ≡ kept (place x l)
unfolding place
kept-place x [] = refl
kept-place x (y ∷ l) = elim (Bool-cases (at_most x y)) [ inl q ↦ rw q refl | inr q ↦ rw q refl ]

sorted-kept : (l : List String) → sorted (kept l) ≡ kept (sort_strings l)
unfolding sort_strings
sorted-kept [] = refl
sorted-kept (x ∷ l) = kept-place x (sort_strings l)

module _ {S A : Type 0} where
  -- The loop over the operations.
  unfoldable pub collect : Registry S A → List (String × List String) → List (String × List String)
  collect [] out = out
  collect ((tool, op) ∷ ops) out =
      collect ops (insert op.skill (or_empty (lookup op.skill out) ++ op.tool ∷ []) out)

  unfoldable pub by_skill : Registry S A → List (String × List String)
  by_skill r = sort_groups (collect r [])

  -- The tools that are registered under a skill, in the order of the registry.
  abbrev pub tools_of : String → Registry S A → List String
  tools_of skill [] = []
  tools_of skill ((tool, op) ∷ ops) =
      let rest = tools_of skill ops in if op.skill == skill then op.tool ∷ rest else rest

  lookup-collect :
      (skill : String) (ops : Registry S A) (out : List (String × List String)) (ts : List String)
      → lookup skill out ≡ kept ts
      → lookup skill (collect ops out) ≡ kept (ts ++ tools_of skill ops)
  unfolding collect
  lookup-collect skill [] out ts h = rw (append-nil ts) h
  lookup-collect skill ((tool, op) ∷ ops) out ts h =
      let new = or_empty (lookup op.skill out) ++ op.tool ∷ [] in
      elim (Bool-cases (op.skill == skill)) [
        | inl q ↦
            let same : op.skill ≡ skill = (eq_iff op.skill skill).0 q in
            let grown : new ≡ ts ++ op.tool ∷ [] =
              ap (λ k. or_empty (lookup k out) ++ op.tool ∷ []) same
              ∙ ap (λ e. or_empty e ++ op.tool ∷ []) h
              ∙ ap (λ l. l ++ op.tool ∷ []) (or_empty-kept ts) in
            let entry : lookup skill (insert op.skill new out) ≡ kept (ts ++ op.tool ∷ []) =
              lookup-insert op.skill skill new out
              ∙ (rw q (ap some grown ∙ kept-append ts op.tool)) in
            rw q (
              lookup-collect skill ops (insert op.skill new out) (ts ++ op.tool ∷ []) entry
              ∙ ap kept (append_assoc ts (op.tool ∷ []) (tools_of skill ops)))
        | inr q ↦
            let entry : lookup skill (insert op.skill new out) ≡ kept ts =
              lookup-insert op.skill skill new out ∙ (rw q h) in
            rw q (lookup-collect skill ops (insert op.skill new out) ts entry)
      ]

  tools_of-cons :
      (skill : String) (e : String × Op S A) (r₁ r₂ : Registry S A)
      → Permᴰ (tools_of skill r₁) (tools_of skill r₂)
      → Permᴰ (tools_of skill (e ∷ r₁)) (tools_of skill (e ∷ r₂))
  tools_of-cons skill (tool, op) r₁ r₂ p = elim (Bool-cases (op.skill == skill)) [
    | inl q ↦ rw q (Permᴰ.cons refl p)
    | inr q ↦ rw q p
  ]

  tools_of-swap :
      (skill : String) (e f : String × Op S A) (r : Registry S A)
      → Permᴰ (tools_of skill (e ∷ f ∷ r)) (tools_of skill (f ∷ e ∷ r))
  tools_of-swap skill (tool, op) (tool₁, op₁) r = elim (Bool-cases (op.skill == skill)) [
    | inl q ↦ elim (Bool-cases (op₁.skill == skill)) [
      | inl q₁ ↦ rw (q, q₁) (Permᴰ.swap refl refl)
      | inr q₁ ↦ rw (q, q₁) (Permᴰ.refl (op.tool ∷ tools_of skill r))
    ]
    | inr q ↦ rw q (Permᴰ.refl (tools_of skill ((tool₁, op₁) ∷ r)))
  ]

  tools_of-Perm :
      (skill : String) {r₁ r₂ : Registry S A}
      → Permᴰ r₁ r₂
      → Permᴰ (tools_of skill r₁) (tools_of skill r₂)
  tools_of-Perm skill Permᴰ.nil = Permᴰ.nil
  tools_of-Perm skill (Permᴰ.cons {a = a} {l₁ = l₁} {l₂ = l₂} e p) =
      subst (λ b. Permᴰ (tools_of skill (a ∷ l₁)) (tools_of skill (b ∷ l₂))) e
        (tools_of-cons skill a l₁ l₂ (tools_of-Perm skill p))
  tools_of-Perm skill (Permᴰ.swap {a = a} {b = b} {l = l} e f) =
      subst (λ r. Permᴰ (tools_of skill (a ∷ b ∷ l)) (tools_of skill r)) (λ i. f i ∷ e i ∷ l)
        (tools_of-swap skill a b l)
  tools_of-Perm skill (Permᴰ.trans p q) =
      Permᴰ.trans (tools_of-Perm skill p) (tools_of-Perm skill q)

  -- However the map is visited, a skill without a tool has no entry, and any other has exactly the
  -- tools that are registered under it, in the one order of strings.
  pub by_skill-IsGrouped :
      (r visited : Registry S A)
      → Perm visited r
      → (skill : String)
      → (lookup skill (by_skill visited) ≡ kept (sort_strings (tools_of skill r)))
        × IsSorted (or_empty (lookup skill (by_skill visited)))
  unfolding by_skill lookup
  by_skill-IsGrouped r visited p skill =
      let tools = tools_of skill visited in
      let entry : lookup skill (by_skill visited) ≡ kept (sort_strings tools) =
        lookup-sort_groups skill (collect visited [])
        ∙ ap sorted (lookup-collect skill visited [] [] refl)
        ∙ sorted-kept tools in
      let same : sort_strings tools ≡ sort_strings (tools_of skill r) =
        ∥∥₁_elim p (strings_set _ _) (λ d. sort-Perm (tools_of-Perm skill d)) in
      (
        entry ∙ ap kept same,
        subst IsSorted (sym (ap or_empty entry ∙ or_empty-kept (sort_strings tools)))
            (sort-IsSorted tools),
      )
