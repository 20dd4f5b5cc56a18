-- ===== src/Json/Maps.antt =====
-- A map that is marshalled and decoded again holds the same values.
use mathlib.Core.List.{List}
use svpchain_research_agent.Base.{
  ◌≡◌, refl, String, [], ◌∷◌, Option, none, some, ok, arith, ◌∙◌, ap, inl, inr, Bool-cases, eq_iff,
  lookup, insert, lookup-insert, IsDistinct, insert-IsDistinct, string_eq, ◌==◌, if◌then◌else◌,
}
use svpchain_research_agent.Json.{
  Json, Fields, end, field, value, to_map, unmarshal_map, add_sorted, sorted_fields, marshal_map,
  key_first,
}

-- The last value that the fields give a key, or the one it had.
abbrev last_value : String → Fields → Option Json → Option Json
last_value k end o = o
last_value k (field j v fs) o = last_value k fs (if j == k then some v else o)

lookup-to_map :
    (k : String) (fs : Fields) (m : List (String × Json))
    → lookup k (to_map fs m) ≡ last_value k fs (lookup k m)
unfolding to_map
lookup-to_map k end m = refl
lookup-to_map k (field j v fs) m =
    rw (lookup-to_map k fs (insert j v m), lookup-insert j k v m) refl

pub to_map-IsDistinct :
    (fs : Fields) (m : List (String × Json)) → IsDistinct m → IsDistinct (to_map fs m)
unfolding to_map
to_map-IsDistinct end m h = h
to_map-IsDistinct (field k v fs) m h =
    to_map-IsDistinct fs (insert k v m) (insert-IsDistinct k v m h)

last_value-none : (k : String) (fs : Fields) (o : Option Json) → last_value k fs o ≡ none → o ≡ none
last_value-none k end o h = h
last_value-none k (field j v fs) o h =
    ground (arith, last_value-none k fs (if j == k then some v else o) h)

-- Where `j` is not among the fields, the place at which it is added does not matter.
last_value-add_sorted :
    (k j : String) (v : Json) (fs : Fields) (o : Option Json)
    → last_value j fs none ≡ none
    → last_value k (add_sorted j v fs) o ≡ last_value k fs (if j == k then some v else o)
unfolding add_sorted
last_value-add_sorted k j v end o h = refl
last_value-add_sorted k j v (field i w fs) o h = elim (Bool-cases (key_first j i)) [
  | inl first ↦ rw (first, add_sorted) refl
  | inr later ↦
      let start : (if i == j then some w else none) ≡ none =
        last_value-none j fs (if i == j then some w else none) h in
      let absent : last_value j fs none ≡ none = rw start at h in
      rw (later, add_sorted)
        (last_value-add_sorted k j v fs (if i == k then some w else o) absent
          ∙ ap (last_value k fs) (ground (arith, start, eq_iff i j, eq_iff i k, eq_iff j k)))
]

last_value-absent :
    (k : String) (fs : Fields) (o : Option Json)
    → last_value k fs none ≡ none
    → last_value k fs o ≡ o
last_value-absent k end o h = refl
last_value-absent k (field j v fs) o h = elim (Bool-cases (j == k)) [
  | inl same ↦ absurd (cc (last_value-none k fs (some v) (rw same at h)))
  | inr other ↦ rw other (last_value-absent k fs o (rw other at h))
]

sorted_fields-lookup :
    (k : String) (m : List (String × Json))
    → IsDistinct m
    → last_value k (sorted_fields m) none ≡ lookup k m
unfolding sorted_fields lookup
sorted_fields-lookup k [] h = refl
sorted_fields-lookup k ((j, v) ∷ m) (absent, h) =
    let none_yet = sorted_fields-lookup j m h ∙ absent in
    last_value-add_sorted k j v (sorted_fields m) none none_yet ∙ elim (Bool-cases (j == k)) [
      | inl same ↦
          rw same
            (last_value-absent k (sorted_fields m) (some v) (rw ((eq_iff j k).0 same) at none_yet))
      | inr other ↦ rw other (sorted_fields-lookup k m h)
    ]

-- A map with distinct keys that is marshalled and decoded again holds the same value at every key.
pub unmarshal-marshal_map :
    (m : List (String × Json))
    → IsDistinct m
    → (m' : List (String × Json)) × (unmarshal_map (value (marshal_map m)) ≡ ok (some m'))
      × ((k : String) → lookup k m' ≡ lookup k m)
unfolding unmarshal_map marshal_map lookup
unmarshal-marshal_map m h = (
  to_map (sorted_fields m) [],
  refl,
  λ k. lookup-to_map k (sorted_fields m) [] ∙ sorted_fields-lookup k m h,
)
