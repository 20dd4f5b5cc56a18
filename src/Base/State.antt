-- ===== src/Base/State.antt =====
-- Operations that read and change a state, and may fail. The state after a failure is kept: what
-- the operation had done before it failed stays done.
use mathlib.Core.Bool.{Bool}
use svpchain_research_agent.Base.Errors.{Error}
use svpchain_research_agent.Base.Results.{Result, ok, err, guard}

abbrev pub M {ℓ κ} : Type ℓ → Type κ → Type (ℓ ⊔ κ)
M S A = S → Result A × S

abbrev pub pure {ℓ κ} : {S : Type ℓ} {A : Type κ} → A → M S A
pure a s = (ok a, s)

abbrev pub throw {ℓ κ} : {S : Type ℓ} {A : Type κ} → Error → M S A
throw e s = (err e, s)

abbrev pub lift {ℓ κ} : {S : Type ℓ} {A : Type κ} → Result A → M S A
lift r s = (r, s)

abbrev pub check {ℓ} : {S : Type ℓ} → Bool → Error → M S (Unit {0})
check b e s = (guard b e, s)

abbrev pub continue {ℓ κ λ'} :
    {S : Type ℓ} {A : Type κ} {B : Type λ'} → Result A × S → (A → M S B) → Result B × S
continue (ok a, s) f = f a s
continue (err e, s) f = (err e, s)

infixl 5 ◌>>=◌ ◌>>◌
abbrev pub ◌>>=◌ {ℓ κ λ'} : {S : Type ℓ} {A : Type κ} {B : Type λ'} → M S A → (A → M S B) → M S B
◌>>=◌ m f s = continue (m s) f

abbrev pub ◌>>◌ {ℓ κ} : {S : Type ℓ} {B : Type κ} → M S (Unit {0}) → M S B → M S B
m >> k = m >>= λ _. k

abbrev pub rewrap {ℓ κ} : {S : Type ℓ} {A : Type κ} → (Error → Error) → Result A × S → Result A × S
rewrap f (ok a, s) = (ok a, s)
rewrap f (err e, s) = (err (f e), s)

-- `if err != nil { return f(err) }`
abbrev pub on_error {ℓ κ} : {S : Type ℓ} {A : Type κ} → (Error → Error) → M S A → M S A
on_error f m s = rewrap f (m s)
