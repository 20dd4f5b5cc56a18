-- ===== src/Base/Base64.antt =====
-- encoding/base64, its StdEncoding: decoding skips line breaks, wants the padding, and drops the
-- bits that the last quantum has left over.
pub mod Letters
use Prim.Native.Char.{Char, code}
use Prim.Native.Nat.{ℕ, zero, suc, ◌+◌, ◌-◌, ◌*◌, ◌/◌, ◌%◌, ◌<◌, ◌≤◌}
use Prim.Native.String.{String}
use mathlib.Core.Path.{◌≡◌, refl, ap}
use mathlib.Core.Logic.{◌⊎◌, inl, inr}
use mathlib.Core.Bool.{Bool, true, false, ◌&&◌, ◌||◌}
use mathlib.Core.Option.{Option, none, some}
use mathlib.Core.List.{List, [], ◌∷◌, ◌++◌}
use native.Mathlib.Omega.{arith}
use svpchain_research_agent.Base.Tests.{leb, ◌==◌, if◌then◌else◌, nat_eq, nat_eqb_iff}
use svpchain_research_agent.Base.Lists.{All}

abbrev pub alphabet : String
alphabet = "ABCDEFGHIJKLMNOPQRSTUVWXYZabcdefghijklmnopqrstuvwxyz0123456789+/"

unfoldable pub nth_char : String → ℕ → Char
nth_char String.[] n = "="
nth_char (String.◌∷◌ c s) zero = c
nth_char (String.◌∷◌ c s) (suc n) = nth_char s n

pub letter : ℕ → Char
unfolding nth_char
letter n = nth_char alphabet n

infixr 67 ◌∷c◌
abbrev ◌∷c◌ : Char → String → String
c ∷c s = String.◌∷◌ c s

unfoldable pub encode : List ℕ → String
unfolding letter
encode [] = String.[]
encode (a ∷ []) = letter (a / 4) ∷c letter (a % 4 * 16) ∷c "=="
encode (a ∷ b ∷ []) = letter (a / 4) ∷c letter (a % 4 * 16 + b / 16) ∷c letter (b % 16 * 4) ∷c "="
encode (a ∷ b ∷ c ∷ r) =
    letter (a / 4)
    ∷c letter (a % 4 * 16 + b / 16)
    ∷c letter (b % 16 * 4 + c / 64)
    ∷c letter (c % 64)
    ∷c encode r

-- The value of a letter.
sextet : ℕ → Option ℕ
sextet c =
    if leb b'A' c && leb c b'Z'
    then some (c - 65)
    else if leb b'a' c && leb c b'z'
    then some (c - 71)
    else if leb b'0' c && leb c b'9'
    then some (c + 4)
    else if c == b'+'
    then some 62
    else if c == b'/'
    then some 63
    else none

-- The letters of a text, less its line breaks.
letters : String → List ℕ
letters String.[] = []
letters (String.◌∷◌ c s) =
    let rest = letters s in if code c == 10 || code c == 13 then rest else code c ∷ rest

infixl 5 ◌>>=◌
abbrev ◌>>=◌ : {A B : Type 0} → Option A → (A → Option B) → Option B
none >>= k = none
some a >>= k = k a

one_byte : ℕ → ℕ → Option (List ℕ)
unfolding sextet
one_byte a b = do x ← sextet a; y ← sextet b; some ((x * 4 + y / 16) ∷ [])

two_bytes : ℕ → ℕ → ℕ → Option (List ℕ)
unfolding sextet
two_bytes a b c = do
  x ← sextet a
  y ← sextet b
  z ← sextet c
  some ((x * 4 + y / 16) ∷ (y % 16 * 16 + z / 4) ∷ [])

three_bytes : ℕ → ℕ → ℕ → ℕ → Option (List ℕ)
unfolding sextet
three_bytes a b c d = do
  x ← sextet a
  y ← sextet b
  z ← sextet c
  w ← sextet d
  some ((x * 4 + y / 16) ∷ (y % 16 * 16 + z / 4) ∷ (z % 4 * 64 + w) ∷ [])

abbrev is_end : List ℕ → Bool
is_end [] = true
is_end (x ∷ r) = false

prepend : Option (List ℕ) → Option (List ℕ) → Option (List ℕ)
prepend xs ys = do bytes ← xs; rest ← ys; some (bytes ++ rest)

quanta : List ℕ → Option (List ℕ)
unfolding one_byte two_bytes three_bytes prepend
quanta [] = some []
quanta (a ∷ b ∷ c ∷ d ∷ r) =
    let more = quanta r in
    if d == b'='
    then (if is_end r then (if c == b'=' then one_byte a b else two_bytes a b c) else none)
    else prepend (three_bytes a b c d) more
quanta _ = none

unfoldable pub decode : String → Option (List ℕ)
unfolding quanta letters
decode s = quanta (letters s)

le_cases : (m n : ℕ) → m ≤ n → (m ≡ n) ⊎ (suc m ≤ n)
le_cases m n h = ground arith

passes_from : (ℕ → Bool) → (start count : ℕ) → Bool
passes_from test start zero = true
passes_from test start (suc count) =
    if test start then passes_from test (suc start) count else false

passes_from-covers :
    (test : ℕ → Bool) (start count c : ℕ)
    → passes_from test start count ≡ true
    → start ≤ c
    → c < start + count
    → test c ≡ true
unfolding passes_from
passes_from-covers test start zero c h low high = absurd (omega arith)
passes_from-covers test start (suc count) c h low high = elim (le_cases start c low) [
  | inl same ↦ ground arith
  | inr next ↦ passes_from-covers test (suc start) count c (ground arith) next (omega arith)
]

abbrev reads : Option ℕ → ℕ → Bool
reads none n = false
reads (some m) n = m == n

abbrev reads_back : ℕ → ℕ → Bool
reads_back c n = reads (sextet c) n && leb 43 c && (leb c 60 || leb 62 c)

-- Every letter reads back, and is no padding or line break.
letters_table : passes_from (λ n. reads_back (code (letter n)) n) 0 64 ≡ true
unfolding passes_from sextet letter
letters_table = refl

letter-reads_back : (n : ℕ) → n < 64 → reads_back (code (letter n)) n ≡ true
letter-reads_back n h =
    passes_from-covers (λ k. reads_back (code (letter k)) k) 0 64 n letters_table (omega arith) h

reads-sextet : (o : Option ℕ) (n : ℕ) → reads o n ≡ true → o ≡ some n
reads-sextet none n h = cc
reads-sextet (some m) n h = ap some (omega (arith, (nat_eqb_iff m n).0 h))

module _ (n : ℕ) (small : n < 64) where
  sextet-letter : sextet (code (letter n)) ≡ some n
  sextet-letter =
      reads-sextet (sextet (code (letter n))) n (ground (arith, letter-reads_back n small))

  letter-range :
      ((leb 43 (code (letter n)) && (leb (code (letter n)) 60 || leb 62 (code (letter n)))) ≡ true)
  letter-range = ground (arith, letter-reads_back n small)

  letters-letter : (s : String) → letters (letter n ∷c s) ≡ code (letter n) ∷ letters s
  unfolding letters
  letters-letter s = ground (arith, letter-range)

  letter-ne-pad : (code (letter n) == b'=') ≡ false
  letter-ne-pad = ground (arith, letter-range)

three_bytes-letters :
    (a b c : ℕ)
    → a < 256
    → b < 256
    → c < 256
    → three_bytes
        (code (letter (a / 4)))
        (code (letter (a % 4 * 16 + b / 16)))
        (code (letter (b % 16 * 4 + c / 64)))
        (code (letter (c % 64)))
      ≡ some (a ∷ b ∷ c ∷ [])
unfolding three_bytes
three_bytes-letters a b c ha hb hc =
    rw
      (
        sextet-letter (a / 4) (omega arith),
        sextet-letter (a % 4 * 16 + b / 16) (omega arith),
        sextet-letter (b % 16 * 4 + c / 64) (omega arith),
        sextet-letter (c % 64) (omega arith),
      )
      (ground arith)

two_bytes-letters :
    (a b : ℕ)
    → a < 256
    → b < 256
    → two_bytes
        (code (letter (a / 4)))
        (code (letter (a % 4 * 16 + b / 16)))
        (code (letter (b % 16 * 4)))
      ≡ some (a ∷ b ∷ [])
unfolding two_bytes
two_bytes-letters a b ha hb =
    rw
      (
        sextet-letter (a / 4) (omega arith),
        sextet-letter (a % 4 * 16 + b / 16) (omega arith),
        sextet-letter (b % 16 * 4) (omega arith),
      )
      (ground arith)

-- What StdEncoding encodes it decodes.
pub decode-encode : (bs : List ℕ) → All (λ b. b < 256) bs → decode (encode bs) ≡ some bs
unfolding decode encode
decode-encode [] h = refl
decode-encode (a ∷ []) (ha, _) =
    rw (letters-letter (a / 4) (omega arith), letters-letter (a % 4 * 16) (omega arith))
      (rw (sextet-letter (a / 4) (omega arith), sextet-letter (a % 4 * 16) (omega arith))
        (ground arith))
decode-encode (a ∷ b ∷ []) (ha, (hb, _)) =
    rw
      (
        letters-letter (a / 4) (omega arith),
        letters-letter (a % 4 * 16 + b / 16) (omega arith),
        letters-letter (b % 16 * 4) (omega arith),
        letter-ne-pad (b % 16 * 4) (omega arith),
      )
      (two_bytes-letters a b ha hb)
decode-encode (a ∷ b ∷ c ∷ r) (ha, (hb, (hc, h))) =
    rw
      (
        letters-letter (a / 4) (omega arith),
        letters-letter (a % 4 * 16 + b / 16) (omega arith),
        letters-letter (b % 16 * 4 + c / 64) (omega arith),
        letters-letter (c % 64) (omega arith),
        letter-ne-pad (c % 64) (omega arith),
        three_bytes-letters a b c ha hb hc,
      )
      (ground (arith, decode-encode r h))
