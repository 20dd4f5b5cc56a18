-- ===== src/Base/Base64/Letters.antt =====
-- encoding/base64: the letters of an encoded text.
use Prim.Native.Char.{Char}
use Prim.Native.Nat.{ℕ, zero, suc, ◌+◌, ◌*◌, ◌/◌, ◌%◌}
use Prim.Native.String.{String}
use mathlib.Core.Path.{◌≡◌, refl}
use mathlib.Core.Bool.{Bool, true}
use mathlib.Core.List.{List, [], ◌∷◌}
use native.Mathlib.Omega.{arith}
use svpchain_research_agent.Base.Base64.{alphabet, nth_char, letter, encode}
use svpchain_research_agent.Base.Text.{all_chars}

module _ (p : Char → Bool) (padding : p "=" ≡ true) where
  pub nth_char-all : (s : String) (n : ℕ) → all_chars p s ≡ true → p (nth_char s n) ≡ true
  unfolding nth_char
  nth_char-all String.[] n h = padding
  nth_char-all (String.◌∷◌ c s) zero h = ground arith
  nth_char-all (String.◌∷◌ c s) (suc n) h = ground (arith, nth_char-all s n)

  -- Nothing else stands in an encoded text than the letters of the alphabet and the padding.
  pub encode-all : all_chars p alphabet ≡ true → (b : List ℕ) → all_chars p (encode b) ≡ true
  unfolding encode letter
  encode-all h [] = refl
  encode-all h (a ∷ []) =
      ground (arith, nth_char-all alphabet (a / 4) h, nth_char-all alphabet (a % 4 * 16) h)
  encode-all h (a ∷ b ∷ []) = ground (
    arith,
    nth_char-all alphabet (a / 4) h,
    nth_char-all alphabet (a % 4 * 16 + b / 16) h,
    nth_char-all alphabet (b % 16 * 4) h,
  )
  encode-all h (a ∷ b ∷ c ∷ r) = ground (
    arith,
    nth_char-all alphabet (a / 4) h,
    nth_char-all alphabet (a % 4 * 16 + b / 16) h,
    nth_char-all alphabet (b % 16 * 4 + c / 64) h,
    nth_char-all alphabet (c % 64) h,
    encode-all h r,
  )
