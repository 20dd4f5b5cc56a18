-- ===== src/Base.antt =====
-- What the other modules share: the libraries' names, passed on, and the helpers of the children.
mod Tests
mod Lists
pub mod Errors
pub mod Results
pub mod State
pub mod Int
pub mod Text
pub mod Base64
pub mod Url
pub mod Sort
pub mod Hex
pub mod Decimal
pub use Tests.*
pub use Lists.*
pub use Errors.{Error, errorf, wrap, external, no_tenant, panic, Arg, str, num, strs, nums}
pub use Results.{Result, ok, err}
pub use State.{M}
pub use Int.{ℤ, pos, negsuc, ltb_ℤ, ◌≤ℤ◌, is_zero, is_negative}
unfoldable pub use Int.{add64, sub64}
unfoldable pub use Lists.{lookup, insert}
unfoldable pub use Text.{trim_space, cut_prefix}
pub use Text.{◌<>◌}
pub use Prim.Native.Nat.{ℕ, zero, suc, ◌+◌, ◌-◌, ◌*◌, ◌/◌, ◌%◌, ◌^◌, ◌≤◌, ◌<◌}
pub use Prim.Native.String.{String}
pub use mathlib.Core.Path.{◌≡◌, refl, sym, ap, subst, ◌∙◌, fun_ext}
pub use mathlib.Core.Logic.{◌≢◌, ◌↔◌, ◌⊎◌, inl, inr}
pub use mathlib.Core.Bool.{Bool, true, false, not, ◌&&◌, ◌||◌}
pub use mathlib.Core.Option.{Option, none, some}
pub use mathlib.Core.List.{List, [], ◌∷◌, ◌++◌, map, append_assoc, append-nil}
pub use native.Mathlib.Omega.{arith}
pub use text.Mathlib.TextEquality.{eq_iff}
pub use text.Mathlib.TextPositions.{eq_refl}

-- A Go byte slice, each byte below 256.
abbrev pub Bytes : Type 0
Bytes = List ℕ
