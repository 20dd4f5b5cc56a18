-- ===== src/Base/Errors.antt =====
-- Go's `error` values. `errorf` and `wrap` are `fmt.Errorf` without and with `%w`; `external` is an
-- error of code outside the repository; `panic` is a run-time panic, which nothing here recovers.
use Prim.Native.Nat.{ℕ}
use Prim.Native.String.{String}
use mathlib.Core.List.{List}

pub data Arg : Type 0 where
  str : String → Arg
  num : ℕ → Arg
  strs : List String → Arg
  nums : List ℕ → Arg

pub data Error : Type 0 where
  errorf : String → List Arg → Error
  wrap : String → List Arg → Error → Error
  external : String → Error
  no_tenant : Error
  panic : String → Error
