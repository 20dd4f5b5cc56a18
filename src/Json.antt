-- ===== src/Json.antt =====
-- encoding/json, as far as the program uses it: JSON values, and decoding into a Go map, a string
-- and a uint32. The lexer is left out: a text is a value, or it is malformed.
pub mod Maps
pub mod Structs
pub mod Marshalled
use Prim.Native.Nat.{Ordering}
use Prim.Native.String.{compare}
use svpchain_research_agent.Base.{
  ℕ, ℤ, pos, Bool, true, false, String, List, [], ◌∷◌, Option, none, some, Result, ok, err, Error,
  external, insert, string_eq, ltb, if◌then◌else◌, ◌^◌,
}

mutual
  pub data Json : Type 0 where
    null : Json
    bool : Bool → Json
    int : ℤ → Json
    real : String → Json
    str : String → Json
    arr : Items → Json
    obj : Fields → Json

  pub data Items : Type 0 where
    nil : Items
    item : Json → Items → Items

  pub data Fields : Type 0 where
    end : Fields
    field : String → Json → Fields → Fields

-- json.RawMessage: no bytes, bytes that are no JSON, or a value.
pub data RawMessage : Type 0 where
  absent malformed : RawMessage
  value : Json → RawMessage

abbrev pub decode_error : Error
decode_error = external "encoding/json"

-- A Go map from keys to values; a later field replaces an earlier one of its key.
unfoldable pub to_map : Fields → List (String × Json) → List (String × Json)
to_map end m = m
to_map (field k v fs) m = to_map fs (insert k v m)

-- json.Unmarshal into a map: `null` leaves a nil map, which is `none`.
unfoldable pub unmarshal_map : RawMessage → Result (Option (List (String × Json)))
unfolding to_map
unmarshal_map (value (obj fs)) = ok (some (to_map fs []))
unmarshal_map (value null) = ok none
unmarshal_map _ = err decode_error

-- json.Unmarshal into a string variable that holds "".
unfoldable pub unmarshal_string : Json → Result String
unmarshal_string (str s) = ok s
unmarshal_string null = ok ""
unmarshal_string _ = err decode_error

-- json.Unmarshal into a uint32 variable that holds 0. Only a literal with no fraction and no
-- exponent is read.
unfoldable pub unmarshal_uint32 : Json → Result ℕ
unmarshal_uint32 (int (pos n)) = if ltb n 4294967296 then ok n else err decode_error
unmarshal_uint32 null = ok 0
unmarshal_uint32 _ = err decode_error

abbrev key_first : String → String → Bool
key_first j k = elim (compare j k) [ Ordering.gt ↦ false | _ ↦ true ]

add_sorted : String → Json → Fields → Fields
add_sorted k v end = field k v end
add_sorted k v (field j w fs) =
    if key_first k j then field k v (field j w fs) else field j w (add_sorted k v fs)

sorted_fields : List (String × Json) → Fields
sorted_fields [] = end
sorted_fields ((k, v) ∷ m) = add_sorted k v (sorted_fields m)

-- json.Marshal of a map: an object with its keys in order.
unfoldable pub marshal_map : List (String × Json) → Json
unfolding sorted_fields add_sorted
marshal_map m = obj (sorted_fields m)
