-- ===== src/Base/Decimal.antt =====
-- math/big: base-10 integers in text.
use Prim.Native.Char.{Char, code}
use Prim.Native.Nat.{ℕ, zero, suc, ◌+◌, ◌-◌, ◌*◌, ◌/◌, ◌%◌}
use Prim.Native.String.{String}
use mathlib.Core.Bool.{◌&&◌}
use mathlib.Core.Option.{Option, none, some}
use svpchain_research_agent.Base.Tests.{leb, ltb, ◌==◌, nat_eq, if◌then◌else◌}
use svpchain_research_agent.Base.Int.{ℤ, pos, negsuc}

-- The digits after those that gave `acc`.
digits_from : ℕ → String → Option ℕ
digits_from acc String.[] = some acc
digits_from acc (String.◌∷◌ c s) =
    let rest = digits_from (acc * 10 + (code c - 48)) s in
    if leb b'0' (code c) && leb (code c) b'9' then rest else none

natural : String → Option ℕ
unfolding digits_from
natural String.[] = none
natural (String.◌∷◌ c s) = digits_from 0 (String.◌∷◌ c s)

abbrev positive : Option ℕ → Option ℤ
positive none = none
positive (some n) = some (pos n)

abbrev negative : Option ℕ → Option ℤ
negative none = none
negative (some zero) = some (pos 0)
negative (some (suc n)) = some (negsuc n)

-- big.Int.SetString with base 10: a sign, if there is one, then digits.
unfoldable pub set_string : String → Option ℤ
unfolding natural
set_string String.[] = none
set_string (String.◌∷◌ c s) =
    if code c == b'-'
    then negative (natural s)
    else (if code c == b'+' then positive (natural s) else positive (natural (String.◌∷◌ c s)))

digit_char : String → ℕ → Char
digit_char String.[] n = "0"
digit_char (String.◌∷◌ c s) zero = c
digit_char (String.◌∷◌ c s) (suc n) = digit_char s n

-- The digits of `n`, in front of `tail`; `n + 1` rounds are enough, for each divides by ten.
print_from : ℕ → ℕ → String → String
unfolding digit_char
print_from zero n tail = tail
print_from (suc fuel) n tail =
    let out = String.◌∷◌ (digit_char "0123456789" (n % 10)) tail in
    let more = print_from fuel (n / 10) out in if ltb n 10 then out else more

-- big.Int.String
unfoldable pub to_string : ℤ → String
unfolding print_from
to_string (pos n) = print_from (suc n) n String.[]
to_string (negsuc n) = String.◌∷◌ "-" (print_from (suc (suc n)) (suc n) String.[])
