-- ===== src/Base/Sort.antt =====
-- The order in which Go compares strings, and sorting by it. A string's letters are compared by
-- their code points, which is the order of its bytes.
use Prim.Native.Char.{code}
use Prim.Native.String as Text
use text.Mathlib.TextEquality.{Char-path}
use mathlib.Core.HLevel.{hedberg}
use mathlib.Core.List as List
use mathlib.Core.List.{Permᴰ}
use mathlib.Core.List.Permᴰ
use svpchain_research_agent.Base.{
  ◌≡◌, refl, ◌∙◌, subst, Bool, true, false, inl, inr, Bool-cases, eq_iff, eqb-false, ◌==◌,
  string_eq, String, List, [], ◌∷◌, arith, if◌then◌else◌,
}
use svpchain_research_agent.Base.Tests.{ltb}

String-discrete : Discrete String
String-discrete s t = elim (Bool-cases (s == t)) [
  | inl q ↦ yes ((eq_iff s t).0 q)
  | inr q ↦ no (eqb-false s t q)
]

pub strings_set : IsSet (List String)
strings_set = List.is_set (hedberg String-discrete)

unfoldable pub at_most : String → String → Bool
at_most Text.[] t = true
at_most (Text.◌∷◌ c s) Text.[] = false
at_most (Text.◌∷◌ c s) (Text.◌∷◌ d t) =
    let rest = at_most s t in
    if ltb (code c) (code d) then true else if ltb (code d) (code c) then false else rest

at_most_total : (s t : String) → at_most s t ≡ false → at_most t s ≡ true
unfolding at_most
at_most_total Text.[] t h = ground arith
at_most_total (Text.◌∷◌ c s) Text.[] h = refl
at_most_total (Text.◌∷◌ c s) (Text.◌∷◌ d t) h = ground (arith, at_most_total s t)

at_most_trans : (s t u : String) → at_most s t ≡ true → at_most t u ≡ true → at_most s u ≡ true
unfolding at_most
at_most_trans Text.[] t u h k = refl
at_most_trans (Text.◌∷◌ c s) Text.[] u h k = ground arith
at_most_trans (Text.◌∷◌ c s) (Text.◌∷◌ d t) Text.[] h k = ground arith
at_most_trans (Text.◌∷◌ c s) (Text.◌∷◌ d t) (Text.◌∷◌ e u) h k = ground (arith, at_most_trans s t u)

at_most_antisym : (s t : String) → at_most s t ≡ true → at_most t s ≡ true → s ≡ t
unfolding at_most
at_most_antisym Text.[] Text.[] h k = refl
at_most_antisym Text.[] (Text.◌∷◌ d t) h k = ground arith
at_most_antisym (Text.◌∷◌ c s) Text.[] h k = ground arith
at_most_antisym (Text.◌∷◌ c s) (Text.◌∷◌ d t) h k =
    let codes : code c ≡ code d = ground arith in
    let heads : c ≡ d = Char-path c d codes in
    let up : at_most s t ≡ true = ground arith in
    let down : at_most t s ≡ true = ground arith in
    let tails : s ≡ t = at_most_antisym s t up down in cc

unfoldable pub place : String → List String → List String
place x [] = x ∷ []
place x (y ∷ ys) = let rest = place x ys in if at_most x y then x ∷ y ∷ ys else y ∷ rest

unfoldable pub sort_strings : List String → List String
unfolding place
sort_strings [] = []
sort_strings (x ∷ xs) = place x (sort_strings xs)

pub place-place : (x y : String) (l : List String) → place x (place y l) ≡ place y (place x l)
unfolding place
place-place x y [] = ground (arith, at_most_total x y, at_most_antisym x y)
place-place x y (z ∷ l) = ground (
  arith,
  place-place x y l,
  at_most_total x y,
  at_most_total x z,
  at_most_total y z,
  at_most_antisym x y,
  at_most_trans x y z,
  at_most_trans y x z,
)

-- However a list is permuted, it sorts to the same.
pub sort-Perm : {l₁ l₂ : List String} → Permᴰ l₁ l₂ → sort_strings l₁ ≡ sort_strings l₂
unfolding sort_strings
sort-Perm Permᴰ.nil = refl
sort-Perm (Permᴰ.cons e p) = λ i. place (e i) (sort-Perm p i)
sort-Perm (Permᴰ.swap {a = a} {b = b} {l = l} e f) =
    place-place a b (sort_strings l) ∙ λ i. place (f i) (place (e i) (sort_strings l))
sort-Perm (Permᴰ.trans p q) = sort-Perm p ∙ sort-Perm q

abbrev pub IsSorted : List String → Type 0
IsSorted [] = Unit
IsSorted (x ∷ []) = Unit
IsSorted (x ∷ y ∷ l) = (at_most x y ≡ true) × IsSorted (y ∷ l)

place-below :
    (x z : String) (l : List String) → at_most x z ≡ false → place x (z ∷ l) ≡ z ∷ place x l
unfolding place
place-below x z l r = rw r refl

place-IsSorted : (x : String) (l : List String) → IsSorted l → IsSorted (place x l)
unfolding place
place-IsSorted x [] h = tt
place-IsSorted x (y ∷ []) h = elim (Bool-cases (at_most x y)) [
  | inl q ↦ rw q (q, tt)
  | inr q ↦ rw q (at_most_total x y q, tt)
]
place-IsSorted x (y ∷ z ∷ l) h =
    let rest = place-IsSorted x (z ∷ l) h.1 in
    elim (Bool-cases (at_most x y)) [
      | inl q ↦ rw q (q, h)
      | inr q ↦ elim (Bool-cases (at_most x z)) [
        | inl r ↦ rw (q, r) (at_most_total x y q, (r, h.1))
        | inr r ↦ rw (q, r) (h.0, subst IsSorted (place-below x z l r) rest)
      ]
    ]

pub sort-IsSorted : (l : List String) → IsSorted (sort_strings l)
unfolding sort_strings
sort-IsSorted [] = tt
sort-IsSorted (x ∷ l) = place-IsSorted x (sort_strings l) (sort-IsSorted l)

place-permutes : (x : String) (l : List String) → Permᴰ (place x l) (x ∷ l)
unfolding place
place-permutes x [] = Permᴰ.refl (x ∷ [])
place-permutes x (y ∷ l) = elim (Bool-cases (at_most x y)) [
  | inl q ↦ rw q (Permᴰ.refl (x ∷ y ∷ l))
  | inr q ↦ rw q (Permᴰ.trans (Permᴰ.cons refl (place-permutes x l)) (Permᴰ.swap refl refl))
]

-- Sorting keeps every string, as often as it is there.
pub sort-permutes : (l : List String) → Permᴰ (sort_strings l) l
unfolding sort_strings
sort-permutes [] = Permᴰ.nil
sort-permutes (x ∷ l) =
    Permᴰ.trans (place-permutes x (sort_strings l)) (Permᴰ.cons refl (sort-permutes l))
