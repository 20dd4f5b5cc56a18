-- ===== src/Json/Structs.antt =====
-- encoding/json into a struct with one field: a key names the field whatever its case, every value
-- under such a key has to fit, and the last one counts.
use Prim.Native.Char.{code}
use svpchain_research_agent.Base.{
  ℕ, Bool, true, false, ◌&&◌, String, Result, ok, err, ◌==◌, nat_eq, leb, ◌+◌, if◌then◌else◌,
}
use svpchain_research_agent.Base.Results.{◌>>=◌}
use svpchain_research_agent.Json as Json
use svpchain_research_agent.Json.{Fields, end, field, decode_error}

-- The letter that a letter of a key is compared as: capitals, the Kelvin sign and the long s as the
-- small letters.
abbrev fold_letter : ℕ → ℕ
fold_letter n =
    if leb b'A' n && leb n b'Z'
    then n + 32
    else if n == 8490
    then b'k'
    else if n == 383
    then b's'
    else n

unfoldable pub equal_fold : String → String → Bool
equal_fold String.[] String.[] = true
equal_fold String.[] (String.◌∷◌ d t) = false
equal_fold (String.◌∷◌ c s) String.[] = false
equal_fold (String.◌∷◌ c s) (String.◌∷◌ d t) =
    let rest = equal_fold s t in fold_letter (code c) == fold_letter (code d) && rest

-- `decode` is given what the field holds so far.
unfoldable pub struct_field :
    {A : Type 0} → (Json.Json → A → Result A) → String → Fields → A → Result A
unfolding equal_fold
struct_field decode name end held = ok held
struct_field decode name (field k v fs) held = elim (equal_fold k name) [
  | true ↦ decode v held >>= struct_field decode name fs
  | false ↦ struct_field decode name fs held
]

unfoldable pub unmarshal_struct :
    {A : Type 0} → (Json.Json → A → Result A) → String → A → Json.RawMessage → Result A
unfolding struct_field
unmarshal_struct decode name held (Json.value (Json.obj fs)) = struct_field decode name fs held
unmarshal_struct decode name held (Json.value Json.null) = ok held
unmarshal_struct decode name held _ = err decode_error
