-- ===== src/Toolbridge.antt =====
-- internal/toolbridge/adapter.go: handlers as operations. `S` is the state that the handlers read
-- and change, and `A` Go's `any`, in which every operation answers. A handler's input type, its
-- zero value and how encoding/json reads it are the fields of `Handler`.
pub mod Adapter
pub mod Handlers
pub mod Families
pub mod Chain
pub mod Execution
pub mod Table
pub mod Surface
pub mod Skills
use Prim.Native.Char.{code}
use Prim.Native.String as Text
use svpchain_research_agent.Base.{
  ℕ, Bool, true, false, not, ◌||◌, String, List, [], ◌∷◌, Option, none, some, Result, ok, err,
  Error, errorf, wrap, panic, str, strs, M, ◌==◌, nat_eq, string_eq, lookup, insert, if◌then◌else◌,
}
use svpchain_research_agent.Base.Results as Results
use svpchain_research_agent.Base.Results.{map_err}
use svpchain_research_agent.Base.State.{◌>>=◌, lift, pure, throw}
use svpchain_research_agent.Json.{Json, RawMessage, absent, malformed, value, unmarshal_map}

-- mcp.CallToolResult; a content that is no text is `none`.
pub record CallToolResult : Type 0 where
  pub is_error : Bool
  pub content : List (Option String)

-- A native service method, and the struct fields of its input as `reflect` lists them; `none` where
-- the input is no struct.
pub record StructField : Type 0 where
  pub name : String
  pub is_exported : Bool
  pub json_tag : String

pub record Native (S A : Type 0) : Type 1 where
  pub Input : Type 0
  pub zero_input : Input
  pub unmarshal_input : RawMessage → Result Input
  pub input_fields : Option (List StructField)
  pub call : Input → M S A

-- An MCP tool handler: a result that may be nil, and the output.
pub record Handler (S A : Type 0) : Type 1 where
  pub Input : Type 0
  pub zero_input : Input
  pub unmarshal_input : RawMessage → Result Input
  pub call : Input → M S (Option CallToolResult × A)

pub record Op (S A : Type 0) : Type 0 where
  pub skill : String
  pub tool : String
  pub call : RawMessage → M S A

-- `len(raw) == 0`
abbrev pub is_empty : RawMessage → Bool
is_empty absent = true
is_empty malformed = false
is_empty (value j) = false

-- A Go map from tools to operations.
abbrev pub Registry : Type 0 → Type 0 → Type 0
Registry S A = List (String × Op S A)

-- The arguments, or the zero value where there are none.
unfoldable pub decode_args : {I : Type 0} → I → (RawMessage → Result I) → RawMessage → Result I
decode_args zero_input unmarshal raw =
    if is_empty raw then ok zero_input else map_err (wrap "decode args: %w" []) (unmarshal raw)

unfoldable pub result_text : List (Option String) → String
result_text [] = "tool refused"
result_text (none ∷ cs) = result_text cs
result_text (some t ∷ cs) = let rest = result_text cs in if t == "" then rest else t

-- Go's `json` tag up to its first comma.
unfoldable pub before_comma : String → String
before_comma String.[] = ""
before_comma (String.◌∷◌ c s) =
    let rest = before_comma s in if code c == 44 then "" else String.◌∷◌ c rest

unfoldable pub field_keys : List StructField → List String
unfolding before_comma
field_keys [] = []
field_keys (f ∷ fs) =
    let rest = field_keys fs in
    let tag = before_comma f.json_tag in
    if not f.is_exported || tag == "-" then rest else (if tag == "" then f.name else tag) ∷ rest

unfoldable pub json_keys_of : Option (List StructField) → List String
unfolding field_keys
json_keys_of none = []
json_keys_of (some fs) = field_keys fs

abbrev pub has_key : List String → String → Bool
has_key [] k = false
has_key (j ∷ js) k = j == k || has_key js k

-- The key that the loop over the arguments stops at. The order of a Go map is not fixed: here it is
-- that of the text.
unfoldable pub unknown_key : List String → List (String × Json) → Option String
unknown_key allowed [] = none
unknown_key allowed ((k, v) ∷ m) =
    let rest = unknown_key allowed m in if has_key allowed k then rest else some k

abbrev pub entries : Option (List (String × Json)) → List (String × Json)
entries none = []
entries (some m) = m

abbrev pub unknown_error : List String → String → Error
unknown_error allowed k =
    errorf
      "unknown args key %q — this tool takes %s; tool parameters nest under the wrapper object, not at the top level"
      (str k ∷ strs allowed ∷ [])

abbrev known : List String → Option String → Result (Unit {0})
known allowed none = ok tt
known allowed (some k) = err (unknown_error allowed k)

-- What the strict adapter looks at before the native one runs.
unfoldable pub check_keys : List String → RawMessage → Result (Unit {0})
unfolding unknown_key
check_keys allowed raw =
    if is_empty raw
    then ok tt
    else Results.◌>>=◌ (map_err (wrap "decode args: %w" []) (unmarshal_map raw))
        λ top. known allowed (unknown_key allowed (entries top))

module _ {S A : Type 0} where
  unfoldable pub accept_result : Option CallToolResult × A → M S A
  accept_result (none, out) = pure out
  accept_result (some res, out) =
      if res.is_error then throw (errorf (result_text res.content) []) else pure out

  unfoldable pub adapt : Handler S A → RawMessage → M S A
  adapt h raw = lift (decode_args h.zero_input h.unmarshal_input raw) >>= λ input.
      h.call input >>= accept_result

  unfoldable pub adapt_native : Native S A → RawMessage → M S A
  adapt_native f raw =
      lift (decode_args f.zero_input f.unmarshal_input raw) >>= λ input. f.call input

  unfoldable pub adapt_strict_native : Native S A → RawMessage → M S A
  adapt_strict_native f raw =
      lift (check_keys (json_keys_of f.input_fields) raw) >>= λ u. adapt_native f raw

  unfoldable pub add : String → String → (RawMessage → M S A) → Registry S A → Result (Registry S A)
  add skill tool call r = elim (lookup tool r) [
    | some op ↦ err (panic "toolbridge: duplicate tool %q")
    | none ↦ ok (insert tool (record { skill = skill; tool = tool; call = call }) r)
  ]

  abbrev pub refusing : String → RawMessage → M S A
  refusing reason raw = throw (errorf reason [])

  unfoldable pub add_refusing : String → String → String → Registry S A → Result (Registry S A)
  unfolding add
  add_refusing skill tool reason r = add skill tool (refusing reason) r

  unfoldable pub lookup_op : String → Registry S A → Option (Op S A)
  lookup_op tool r = lookup tool r
