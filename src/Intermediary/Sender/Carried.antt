-- ===== src/Intermediary/Sender/Carried.antt =====
-- internal/intermediary: the chain that one agent sends is the chain that the next one reads.
use svpchain_research_agent.Base.{◌≡◌, refl, String, List, [], ◌∷◌, ok, some, lookup}
use svpchain_research_agent.Json.{unmarshal_string}
use svpchain_research_agent.Json.Structs.{equal_fold, struct_field, unmarshal_struct}
use svpchain_research_agent.Intermediary.Messages.{
  unmarshal_strings, string_slice, carrier, delegation_tokens,
}
use svpchain_research_agent.Intermediary.Sender.{string_items, carrier_of, task_message}

unmarshal-string_items : (ts : List String) → unmarshal_strings (string_items ts) ≡ ok ts
unfolding unmarshal_strings string_items unmarshal_string
unmarshal-string_items [] = refl
unmarshal-string_items (t ∷ ts) = rw (unmarshal-string_items ts) refl

-- A chain of at least one token that the sender puts on its message is what the receiving side
-- reads from that message, whatever the text.
pub delegation_tokens-task_message :
    (text t : String) (ts : List String)
    → delegation_tokens (some (task_message text (t ∷ ts))) ≡ ok (t ∷ ts)
unfolding delegation_tokens task_message carrier carrier_of unmarshal_struct struct_field equal_fold
    string_slice lookup
delegation_tokens-task_message text t ts = rw (unmarshal-string_items (t ∷ ts)) refl
