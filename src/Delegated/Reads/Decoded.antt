-- ===== src/Delegated/Reads/Decoded.antt =====
-- What a read tool will decode from the arguments that are handed on to it. The tools decode into a
-- struct, for which encoding/json leaves the case of a key aside.
use svpchain_research_agent.Base.{
  ◌≡◌, subst, ◌∙◌, ◌⊎◌, inl, inr, true, String, [], Option, none, some, Result, ok, arith, lookup,
  insert, IsDistinct, insert-IsDistinct, Bool-cases, string_eq,
}
use svpchain_research_agent.Json.{
  Json, null, bool, int, real, arr, obj, RawMessage, absent, malformed, value, unmarshal_map,
  to_map,
}
use svpchain_research_agent.Json.Structs.{unmarshal_struct}
use svpchain_research_agent.Json.Maps.{to_map-IsDistinct}
use svpchain_research_agent.Json.Marshalled.{is_shadowed, read_over, unmarshal_struct-marshal_map}
use svpchain_research_agent.Delegated.Reads.{ArgMap, get, put, read_args, read_field, marshalled}

-- Decoding into a field that holds a value: `null` leaves it as it is.
abbrev pub over : {A : Type 0} → (Json → Result A) → Json → A → Result A
over decode null held = ok held
over decode (bool b) held = decode (bool b)
over decode (int i) held = decode (int i)
over decode (real r) held = decode (real r)
over decode (Json.str s) held = decode (Json.str s)
over decode (arr xs) held = decode (arr xs)
over decode (obj fs) held = decode (obj fs)

-- What the tool's struct holds in the field `name`.
abbrev pub decoded : {A : Type 0} → (Json → Result A) → A → String → ArgMap → Result A
decoded decode zero_value name m =
    unmarshal_struct (over decode) name zero_value (value (marshalled m))

-- The arguments have another key that names the field to the tool.
abbrev pub IsShadowed : String → ArgMap → Type 0
IsShadowed name none = ⊥
IsShadowed name (some m) = is_shadowed name m ≡ true

abbrev pub AreDistinct : ArgMap → Type 0
AreDistinct none = Unit
AreDistinct (some m) = IsDistinct m

pub read_args-AreDistinct : (args : RawMessage) (m : ArgMap) → read_args args ≡ ok m → AreDistinct m
unfolding read_args unmarshal_map
read_args-AreDistinct args none h = tt
read_args-AreDistinct absent (some m) h =
    let same : [] ≡ m = ground arith in subst IsDistinct same tt
read_args-AreDistinct malformed (some m) h = absurd (ground arith)
read_args-AreDistinct (value (obj fs)) (some m) h =
    let same : to_map fs [] ≡ m = ground arith in subst IsDistinct same (to_map-IsDistinct fs [] tt)
read_args-AreDistinct (value null) (some m) h = absurd (ground arith)
read_args-AreDistinct (value (bool b)) (some m) h = absurd (ground arith)
read_args-AreDistinct (value (int i)) (some m) h = absurd (ground arith)
read_args-AreDistinct (value (real r)) (some m) h = absurd (ground arith)
read_args-AreDistinct (value (Json.str t)) (some m) h = absurd (ground arith)
read_args-AreDistinct (value (arr xs)) (some m) h = absurd (ground arith)

pub put-AreDistinct :
    (m m' : ArgMap) (k : String) (v : Json) → put m k v ≡ ok m' → AreDistinct m → AreDistinct m'
put-AreDistinct none m' k v h g = absurd (ground arith)
put-AreDistinct (some m) none k v h g = tt
put-AreDistinct (some m) (some m') k v h g =
    let same : insert k v m ≡ m' = ground arith in subst IsDistinct same (insert-IsDistinct k v m g)

module _ {A : Type 0} (decode : Json → Result A) (zero_value : A) (name : String) where
  read_field-over :
      (o : Option Json) (a : A)
      → read_field decode zero_value name o ≡ ok a
      → read_over (over decode) name o zero_value ≡ ok a
  read_field-over none a h = h
  read_field-over (some null) a h = h
  read_field-over (some (bool b)) a h = ground arith
  read_field-over (some (int i)) a h = ground arith
  read_field-over (some (real r)) a h = ground arith
  read_field-over (some (Json.str s)) a h = ground arith
  read_field-over (some (arr xs)) a h = ground arith
  read_field-over (some (obj fs)) a h = ground arith

  -- What is read under the exact key is what the tool decodes, unless another key names the field.
  pub read_field-decoded :
      (m : ArgMap) (a : A)
      → AreDistinct m
      → read_field decode zero_value name (get m name) ≡ ok a
      → IsShadowed name m ⊎ (decoded decode zero_value name m ≡ ok a)
  unfolding unmarshal_struct
  read_field-decoded none a g h = inr h
  read_field-decoded (some m) a g h = elim (Bool-cases (is_shadowed name m)) [
    | inl shadowed ↦ inl shadowed
    | inr plain ↦ inr (
        unmarshal_struct-marshal_map (over decode) name m zero_value g plain
        ∙ read_field-over (lookup name m) a h)
  ]
