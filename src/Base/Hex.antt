-- ===== src/Base/Hex.antt =====
-- encoding/hex.
use Prim.Native.Char.{Char, code}
use Prim.Native.Nat.{ℕ, zero, suc, ◌+◌, ◌-◌, ◌*◌, ◌/◌, ◌%◌}
use Prim.Native.String.{String}
use mathlib.Core.Bool.{◌&&◌}
use mathlib.Core.Option.{Option, none, some}
use mathlib.Core.List.{List, [], ◌∷◌}
use svpchain_research_agent.Base.Tests.{leb, if◌then◌else◌}

digit : ℕ → Option ℕ
digit c =
    if leb b'0' c && leb c b'9'
    then some (c - 48)
    else if leb b'a' c && leb c b'f'
    then some (c - 87)
    else if leb b'A' c && leb c b'F'
    then some (c - 55)
    else none

abbrev push_byte : Option ℕ → Option ℕ → Option (List ℕ) → Option (List ℕ)
push_byte (some h) (some l) (some r) = some ((h * 16 + l) ∷ r)
push_byte _ _ _ = none

-- hex.DecodeString
unfoldable pub decode_string : String → Option (List ℕ)
unfolding digit
decode_string String.[] = some []
decode_string (String.◌∷◌ c (String.◌∷◌ d s)) =
    push_byte (digit (code c)) (digit (code d)) (decode_string s)
decode_string (String.◌∷◌ c String.[]) = none

letter_at : String → ℕ → Char
letter_at String.[] n = "?"
letter_at (String.◌∷◌ c s) zero = c
letter_at (String.◌∷◌ c s) (suc n) = letter_at s n

-- hex.EncodeToString
unfoldable pub encode_to_string : List ℕ → String
unfolding letter_at
encode_to_string [] = String.[]
encode_to_string (b ∷ r) =
    String.◌∷◌ (letter_at "0123456789abcdef" (b / 16))
      (String.◌∷◌ (letter_at "0123456789abcdef" (b % 16)) (encode_to_string r))
