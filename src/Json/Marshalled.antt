-- ===== src/Json/Marshalled.antt =====
-- A struct field that is decoded from a marshalled map: it is the map's value at the field's name,
-- unless the map has another key that names the field when case is left aside.
use svpchain_research_agent.Base.{
  ◌≡◌, refl, sym, ◌∙◌, String, Bool, true, false, not, ◌&&◌, ◌||◌, List, [], ◌∷◌, Option, none,
  some, Result, ok, err, arith, inl, inr, Bool-cases, eq_iff, lookup, IsDistinct, string_eq, ◌==◌,
}
use svpchain_research_agent.Base.Results.{◌>>=◌}
use svpchain_research_agent.Json.{
  Json, Fields, end, field, value, add_sorted, sorted_fields, marshal_map, key_first,
}
use svpchain_research_agent.Json.Structs.{equal_fold, struct_field, unmarshal_struct}

equal_fold_refl : (s : String) → equal_fold s s ≡ true
unfolding equal_fold
equal_fold_refl String.[] = refl
equal_fold_refl (String.◌∷◌ c s) = ground (arith, equal_fold_refl s)

-- A key other than the name itself names the field.
abbrev pub is_shadowed : String → List (String × Json) → Bool
is_shadowed name [] = false
is_shadowed name ((k, v) ∷ m) =
    let rest = is_shadowed name m in equal_fold k name && not (k == name) || rest

abbrev IsMissing : String → Fields → Type 0
IsMissing name end = Unit
IsMissing name (field k v fs) = (equal_fold k name ≡ false) × IsMissing name fs

add_sorted-IsMissing :
    (name k : String) (v : Json) (fs : Fields)
    → equal_fold k name ≡ false
    → IsMissing name fs
    → IsMissing name (add_sorted k v fs)
unfolding add_sorted
add_sorted-IsMissing name k v end h miss = (h, tt)
add_sorted-IsMissing name k v (field j w fs) h miss = elim (Bool-cases (key_first k j)) [
  | inl first ↦ rw (first, add_sorted) (h, miss)
  | inr later ↦ rw (later, add_sorted) (miss.0, add_sorted-IsMissing name k v fs h miss.1)
]

sorted_fields-IsMissing :
    (name : String) (m : List (String × Json))
    → lookup name m ≡ none
    → is_shadowed name m ≡ false
    → IsMissing name (sorted_fields m)
unfolding sorted_fields lookup
sorted_fields-IsMissing name [] h s = tt
sorted_fields-IsMissing name ((k, v) ∷ m) h s =
    let other : equal_fold k name ≡ false = ground arith in
    add_sorted-IsMissing name k v (sorted_fields m) other
      (sorted_fields-IsMissing name m (ground arith) (ground arith))

module _ {A : Type 0} (decode : Json → A → Result A) (name : String) where
  -- What the field holds after its one value, if there is one.
  abbrev pub read_over : Option Json → A → Result A
  read_over none held = ok held
  read_over (some v) held = decode v held

  skipped :
      (k : String) (v : Json) (fs : Fields) (held : A)
      → equal_fold k name ≡ false
      → struct_field decode name (field k v fs) held ≡ struct_field decode name fs held
  unfolding struct_field
  skipped k v fs held h = rw (struct_field, h) refl

  taken :
      (k : String) (v : Json) (fs : Fields) (held : A)
      → equal_fold k name ≡ true
      → struct_field decode name (field k v fs) held
        ≡ (decode v held >>= struct_field decode name fs)
  unfolding struct_field
  taken k v fs held h = rw (struct_field, h) refl

  missing-struct_field :
      (fs : Fields) (held : A) → IsMissing name fs → struct_field decode name fs held ≡ ok held
  unfolding struct_field
  missing-struct_field end held miss = refl
  missing-struct_field (field k v fs) held (h, miss) =
      skipped k v fs held h ∙ missing-struct_field fs held miss

  bound-missing :
      (r : Result A) (fs : Fields) → IsMissing name fs → (r >>= struct_field decode name fs) ≡ r
  bound-missing (ok a) fs miss = missing-struct_field fs a miss
  bound-missing (err e) fs miss = refl

  bound-same :
      (r : Result A) (fs gs : Fields)
      → ((a : A) → struct_field decode name fs a ≡ struct_field decode name gs a)
      → (r >>= struct_field decode name fs) ≡ (r >>= struct_field decode name gs)
  bound-same (ok a) fs gs h = h a
  bound-same (err e) fs gs h = refl

  other-struct_field :
      (k : String) (v : Json) (fs : Fields) (held : A)
      → equal_fold k name ≡ false
      → struct_field decode name (add_sorted k v fs) held ≡ struct_field decode name fs held
  unfolding add_sorted
  other-struct_field k v end held h = skipped k v end held h
  other-struct_field k v (field j w fs) held h = elim (Bool-cases (key_first k j)) [
    | inl first ↦ rw (first, add_sorted) (skipped k v (field j w fs) held h)
    | inr later ↦ elim (Bool-cases (equal_fold j name)) [
      | inr other ↦
          rw (later, add_sorted)
            (skipped j w (add_sorted k v fs) held other
              ∙ other-struct_field k v fs held h
              ∙ sym (skipped j w fs held other))
      | inl yes_here ↦
          rw (later, add_sorted)
            (taken j w (add_sorted k v fs) held yes_here
              ∙ bound-same (decode w held) (add_sorted k v fs) fs
                  (λ a. other-struct_field k v fs a h)
              ∙ sym (taken j w fs held yes_here))
    ]
  ]

  own-struct_field :
      (k : String) (v : Json) (fs : Fields) (held : A)
      → equal_fold k name ≡ true
      → IsMissing name fs
      → struct_field decode name (add_sorted k v fs) held ≡ decode v held
  unfolding add_sorted
  own-struct_field k v end held h miss = taken k v end held h ∙ bound-missing (decode v held) end tt
  own-struct_field k v (field j w fs) held h miss = elim (Bool-cases (key_first k j)) [
    | inl first ↦
        rw (first, add_sorted)
          (taken k v (field j w fs) held h ∙ bound-missing (decode v held) (field j w fs) miss)
    | inr later ↦
        rw (later, add_sorted)
          (skipped j w (add_sorted k v fs) held miss.0 ∙ own-struct_field k v fs held h miss.1)
  ]

  sorted-struct_field :
      (m : List (String × Json)) (held : A)
      → IsDistinct m
      → is_shadowed name m ≡ false
      → struct_field decode name (sorted_fields m) held ≡ read_over (lookup name m) held
  unfolding struct_field sorted_fields lookup
  sorted-struct_field [] held h s = refl
  sorted-struct_field ((k, v) ∷ m) held (absent, h) s = elim (Bool-cases (k == name)) [
    | inl same ↦
        let is : k ≡ name = (eq_iff k name).0 same in
        let folds : equal_fold k name ≡ true = rw is (equal_fold_refl name) in
        let none_more : lookup name m ≡ none = rw (← is) absent in
        rw same (
          own-struct_field k v (sorted_fields m) held folds
            (sorted_fields-IsMissing name m none_more (ground arith)))
    | inr other ↦
        let folds : equal_fold k name ≡ false = ground arith in
        rw other (
          other-struct_field k v (sorted_fields m) held folds
          ∙ sorted-struct_field m held h (ground arith))
  ]

  pub unmarshal_struct-marshal_map :
      (m : List (String × Json)) (held : A)
      → IsDistinct m
      → is_shadowed name m ≡ false
      → unmarshal_struct decode name held (value (marshal_map m)) ≡ read_over (lookup name m) held
  unfolding unmarshal_struct marshal_map
  unmarshal_struct-marshal_map m held h s = sorted-struct_field m held h s
