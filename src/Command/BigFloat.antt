-- ===== src/Command/BigFloat.antt =====
-- The integers and floats of math/big, as junsubpool and ciscoresources use them: what the package
-- computes is a parameter.
use Prim.Native.String.{String}
use gopoller.Common.Tests.{Bool, Option}
use gopoller.Common.Int.{ℤ}

pub record BigFloat (F : Type 0) : Type 0 where
  -- SetInt.
  pub of_int : ℤ → F
  -- NewFloat(100).
  pub hundred : F
  -- Quo, with `none` for its panic.
  pub quo : F → F → Option F
  pub mul : F → F → F
  -- The test Cmp > 0.
  pub above : F → F → Bool
  -- Int, with `none` for the nil that an infinity gives.
  pub truncated : F → Option ℤ
  pub text_of_int : ℤ → String
