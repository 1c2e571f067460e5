-- ===== src/Floats.antt =====
-- Go's float64 with the operations that the sources use. Its arithmetic is a parameter.
use proxy_harv.Prelude.{Bool, Option}
use proxy_harv.Text.{Bytes}
use proxy_harv.Text.Number.{ℤ}

pub record Floats : Type 1 where
  pub F : Type 0
  pub of_int : ℤ → F
  pub add : F → F → F
  pub sub : F → F → F
  pub mul : F → F → F
  pub div : F → F → F
  pub lt : F → F → Bool
  pub le : F → F → Bool
  -- int(v)
  pub truncate : F → ℤ
  -- strconv.ParseFloat(s, 64); `none` is an error
  pub parse : Bytes → Option F
