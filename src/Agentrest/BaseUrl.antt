-- ===== src/Agentrest/BaseUrl.antt =====
-- internal/agentrest/client.go: the loop of `New` that takes trailing slashes from a base URL, on
-- fuel.
use Prim.Native.Char.{Char, code}
use text.Mathlib.TextLemmas.{nil-append, cons-append, append-nil, append_assoc}
use svpchain_research_agent.Base.Text.{all_chars}
use svpchain_research_agent.Base.{
  ℕ, zero, suc, ◌<◌, ◌≡◌, refl, ap, sym, ◌∙◌, inl, inr, Bool, true, false, String, Option, none,
  some, arith, ◌==◌, nat_eq, ◌<>◌, Bool-cases, if◌then◌else◌,
}

-- `baseURL[len(baseURL)-1] == '/'`
unfoldable pub ends_in_slash : String → Bool
ends_in_slash String.[] = false
ends_in_slash (String.◌∷◌ c String.[]) = code c == b'/'
ends_in_slash (String.◌∷◌ c (String.◌∷◌ d s)) = ends_in_slash (String.◌∷◌ d s)

-- `baseURL[:len(baseURL)-1]`
unfoldable pub drop_last : String → String
drop_last String.[] = String.[]
drop_last (String.◌∷◌ c String.[]) = String.[]
drop_last (String.◌∷◌ c (String.◌∷◌ d s)) = String.◌∷◌ c (drop_last (String.◌∷◌ d s))

-- `none` where the fuel ends before the loop.
unfoldable pub trim_slashes : ℕ → String → Option String
unfolding ends_in_slash drop_last
trim_slashes zero s = none
trim_slashes (suc n) s =
    let rest = trim_slashes n (drop_last s) in if ends_in_slash s then rest else some s

abbrev pub size : String → ℕ
size String.[] = 0
size (String.◌∷◌ c s) = suc (size s)

-- The text of the last letter.
abbrev last : String → String
last String.[] = String.[]
last (String.◌∷◌ c String.[]) = String.◌∷◌ c String.[]
last (String.◌∷◌ c (String.◌∷◌ d s)) = last (String.◌∷◌ d s)

abbrev is_slash : Char → Bool
is_slash c = code c == b'/'

-- What is left of a text when the slashes at its end are taken.
pub record IsBare (s left : String) : Type 0 where
  pub bare : ends_in_slash left ≡ false
  pub taken : String
  pub are_slashes : all_chars is_slash taken ≡ true
  pub whole : s ≡ left <> taken

size-drop_last : (s : String) → ends_in_slash s ≡ true → size s ≡ suc (size (drop_last s))
unfolding ends_in_slash drop_last
size-drop_last String.[] h = absurd (ground arith)
size-drop_last (String.◌∷◌ c String.[]) h = refl
size-drop_last (String.◌∷◌ c (String.◌∷◌ d s)) h = ground (arith, size-drop_last (String.◌∷◌ d s) h)

last-is_slash : (s : String) → ends_in_slash s ≡ true → all_chars is_slash (last s) ≡ true
unfolding ends_in_slash
last-is_slash String.[] h = refl
last-is_slash (String.◌∷◌ c String.[]) h = ground arith
last-is_slash (String.◌∷◌ c (String.◌∷◌ d s)) h = last-is_slash (String.◌∷◌ d s) h

drop_last-last : (s : String) → s ≡ drop_last s <> last s
unfolding drop_last
drop_last-last String.[] = sym (nil-append String.[])
drop_last-last (String.◌∷◌ c String.[]) = sym (nil-append (String.◌∷◌ c String.[]))
drop_last-last (String.◌∷◌ c (String.◌∷◌ d s)) =
    ap (λ r. String.◌∷◌ c r) (drop_last-last (String.◌∷◌ d s))
    ∙ sym (cons-append c (drop_last (String.◌∷◌ d s)) (last (String.◌∷◌ d s)))

all-append :
    (s t : String)
    → all_chars is_slash s ≡ true
    → all_chars is_slash t ≡ true
    → all_chars is_slash (s <> t) ≡ true
all-append String.[] t h k = rw (nil-append t) k
all-append (String.◌∷◌ c s) t h k = rw (cons-append c s t) (ground (arith, all-append s t))

-- The loop ends: with more fuel than the text has letters it gives the text without the slashes at
-- its end, which does not end in one.
pub trim_slashes-IsBare :
    (n : ℕ) (s : String)
    → size s < n
    → (left : String) × (trim_slashes n s ≡ some left) × IsBare s left
unfolding trim_slashes
trim_slashes-IsBare zero s h = absurd (omega arith)
trim_slashes-IsBare (suc n) s h = elim (Bool-cases (ends_in_slash s)) [
  | inr none_there ↦ (
    s,
    rw none_there refl,
    record { bare = none_there; taken = String.[]; are_slashes = refl; whole = sym (append-nil s) },
  )
  | inl slash ↦
      let smaller = size-drop_last s slash in
      let (left, run, rest) = trim_slashes-IsBare n (drop_last s) (omega arith) in
      (
        left,
        rw slash run,
        record {
          bare = rest.bare;
          taken = rest.taken <> last s;
          are_slashes = all-append rest.taken (last s) rest.are_slashes (last-is_slash s slash);
          whole =
              drop_last-last s
              ∙ ap (λ r. r <> last s) rest.whole
              ∙ append_assoc left rest.taken (last s);
        },
      )
]
