-- ===== src/Intermediary/Messages.antt =====
-- internal/intermediary/sender.go and server.go: A2A messages as far as the agent reads them, and
-- the credential chain in their metadata. A part is the text that `Part.Text()` gives of it, and a
-- metadata value what `json.Marshal` gives of it.
use svpchain_research_agent.Base.{
  not, String, List, [], ◌∷◌, Option, none, some, Result, ok, err, Error, errorf, wrap, str, nat_eq,
  string_eq, lookup, ◌<>◌, null,
}
use svpchain_research_agent.Base.Results.{◌>>=◌, ◌>>◌, map_err, or_fail, guard}
use svpchain_research_agent.Json as Json
use svpchain_research_agent.Json.Structs.{unmarshal_struct}
use svpchain_research_agent.Json.{
  Items, nil, item, Fields, end, field, decode_error, unmarshal_string,
}

-- a2a.MessageRole
pub data Role : Type 0 where
  role_user role_agent role_other : Role

-- a2a.Message; a part and the metadata may be nil.
pub record Message : Type 0 where
  pub role : Role
  pub task_id : String
  pub parts : List (Option String)
  pub metadata : Option (List (String × Result Json.Json))

unfoldable pub joined_parts : List (Option String) → String
joined_parts [] = ""
joined_parts (none ∷ ps) = joined_parts ps
joined_parts (some t ∷ ps) = t <> joined_parts ps

unfoldable pub message_text : Option Message → String
unfolding joined_parts
message_text none = ""
message_text (some m) = joined_parts m.parts

abbrev pub delegation_metadata_key : String
delegation_metadata_key = "svp.delegation/v1"

-- json.Unmarshal of array elements into strings.
unfoldable pub unmarshal_strings : Items → Result (List String)
unmarshal_strings nil = ok []
unmarshal_strings (item j js) =
    let rest = unmarshal_strings js in unmarshal_string j >>= λ s. rest >>= λ ss. ok (s ∷ ss)

unfoldable pub string_slice : Json.Json → Result (List String)
unfolding unmarshal_strings
string_slice (Json.arr js) = unmarshal_strings js
string_slice Json.null = ok []
string_slice _ = err decode_error

-- `struct { Tokens []string }`
unfoldable pub carrier : Json.Json → Result (List String)
unfolding unmarshal_struct string_slice
carrier j = unmarshal_struct (λ v held. string_slice v) "tokens" [] (Json.value j)

abbrev no_credential : Error
no_credential =
    errorf "no delegation credential: attach the chain as message.metadata[%q]"
      (str delegation_metadata_key ∷ [])

unfoldable pub delegation_tokens : Option Message → Result (List String)
unfolding carrier
delegation_tokens none = err no_credential
delegation_tokens (some m) = do
  metadata ← or_fail m.metadata no_credential
  raw ← or_fail (lookup delegation_metadata_key metadata) no_credential
  encoded ← map_err (wrap "metadata %q is not encodable: %w" (str delegation_metadata_key ∷ [])) raw
  tokens ←
      map_err (wrap "metadata %q is malformed: %w" (str delegation_metadata_key ∷ []))
        (carrier encoded)
  guard (not (null tokens))
      (errorf "metadata %q carries no tokens" (str delegation_metadata_key ∷ []))
  ok tokens
