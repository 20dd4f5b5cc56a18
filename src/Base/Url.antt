-- ===== src/Base/Url.antt =====
-- net/url, its PathEscape, and the URL alphabet of encoding/base64. A letter beyond ASCII is escaped
-- byte by byte in UTF-8.
use Prim.Native.Char.{Char, code}
use Prim.Native.Nat.{ℕ, ◌+◌, ◌/◌, ◌%◌}
use Prim.Native.String.{String}
use mathlib.Core.Path.{◌≡◌, refl}
use mathlib.Core.Logic.{inl, inr}
use mathlib.Core.Bool.{Bool, true, not, ◌&&◌, ◌||◌}
use mathlib.Core.List.{List, [], ◌∷◌}
use native.Mathlib.Omega.{arith}
use svpchain_research_agent.Base.Tests.{leb, ltb, ◌==◌, if◌then◌else◌, nat_eq, Bool-cases}
use svpchain_research_agent.Base.Text.{all_chars}
use svpchain_research_agent.Base.Base64.{nth_char, encode}
use svpchain_research_agent.Base.Base64.Letters.{nth_char-all, encode-all}

-- The code point's bytes in UTF-8.
utf8 : ℕ → List ℕ
utf8 n =
    if ltb n 128
    then n ∷ []
    else if ltb n 2048
    then (192 + n / 64) ∷ (128 + n % 64) ∷ []
    else if ltb n 65536
    then (224 + n / 4096) ∷ (128 + n / 64 % 64) ∷ (128 + n % 64) ∷ []
    else (240 + n / 262144) ∷ (128 + n / 4096 % 64) ∷ (128 + n / 64 % 64) ∷ (128 + n % 64) ∷ []

hex_digit : ℕ → Char
hex_digit n = nth_char "0123456789ABCDEF" n

escape_bytes : List ℕ → String → String
unfolding hex_digit
escape_bytes [] rest = rest
escape_bytes (b ∷ bs) rest =
    String.◌∷◌ "%"
      (String.◌∷◌ (hex_digit (b / 16)) (String.◌∷◌ (hex_digit (b % 16)) (escape_bytes bs rest)))

-- Letters, digits, the marks `-_.~` and, in a path segment, `$&+:=@`.
unfoldable pub stands : ℕ → Bool
stands n =
    (leb b'A' n && leb n b'Z')
    || (leb b'a' n && leb n b'z')
    || (leb b'0' n && leb n b'9')
    || n == b'-'
    || n == b'_'
    || n == b'.'
    || n == b'~'
    || n == b'$'
    || n == b'&'
    || n == b'+'
    || n == b':'
    || n == b'='
    || n == b'@'

unfoldable pub path_escape : String → String
unfolding utf8 escape_bytes stands
path_escape String.[] = String.[]
path_escape (String.◌∷◌ c s) =
    let rest = path_escape s in
    if stands (code c) then String.◌∷◌ c rest else escape_bytes (utf8 (code c)) rest

url_letter : Char → Char
url_letter c = if code c == b'+' then "-" else if code c == b'/' then "_" else c

url_letters : String → String
unfolding url_letter
url_letters String.[] = String.[]
url_letters (String.◌∷◌ c s) = String.◌∷◌ (url_letter c) (url_letters s)

-- base64.URLEncoding.EncodeToString
unfoldable pub encode_url : List ℕ → String
unfolding url_letters
encode_url b = url_letters (encode b)

-- A letter that neither ends a path segment nor begins a query or a fragment.
abbrev stays : Char → Bool
stays c = not (code c == b'/' || code c == b'?' || code c == b'#')

-- A text that is one segment of a path.
abbrev pub is_segment : String → Bool
is_segment s = all_chars stays s

stands-stays : (c : Char) → stands (code c) ≡ true → stays c ≡ true
unfolding stands
stands-stays c h = ground arith

hex_digit-stays : (n : ℕ) → stays (hex_digit n) ≡ true
unfolding hex_digit
hex_digit-stays n = nth_char-all stays refl "0123456789ABCDEF" n refl

escape_bytes-segment :
    (bs : List ℕ) (rest : String)
    → is_segment rest ≡ true
    → is_segment (escape_bytes bs rest) ≡ true
unfolding escape_bytes
escape_bytes-segment [] rest h = h
escape_bytes-segment (b ∷ bs) rest h =
    ground
      (arith, hex_digit-stays (b / 16), hex_digit-stays (b % 16), escape_bytes-segment bs rest h)

pub path_escape-segment : (s : String) → is_segment (path_escape s) ≡ true
unfolding path_escape
path_escape-segment String.[] = refl
path_escape-segment (String.◌∷◌ c s) = elim (Bool-cases (stands (code c))) [
  | inl keep ↦ rw keep (ground (arith, stands-stays c keep, path_escape-segment s))
  | inr drop ↦
      rw drop (escape_bytes-segment (utf8 (code c)) (path_escape s) (path_escape-segment s))
]

url_letters-segment :
    (s : String)
    → all_chars (λ c. stays (url_letter c)) s ≡ true
    → is_segment (url_letters s) ≡ true
unfolding url_letters
url_letters-segment String.[] h = refl
url_letters-segment (String.◌∷◌ c s) h = ground (arith, url_letters-segment s)

pub encode_url-segment : (b : List ℕ) → is_segment (encode_url b) ≡ true
unfolding encode_url url_letter
encode_url-segment b =
    url_letters-segment (encode b) (encode-all (λ c. stays (url_letter c)) refl refl b)
