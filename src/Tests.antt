-- ===== src/Tests.antt =====
-- Concrete inputs, at which the theorems of the other modules are applied.
pub mod Links
pub mod Rows
pub mod Probes
pub mod Workers
pub mod Networks
pub mod Web
pub mod Deliveries
pub mod Histories
use Prim.Native.Nat.{compare, Ordering}
use proxy_harv.Prelude.{
  ℕ, ◌+◌, ◌*◌, ◌-◌, ◌/◌, Bool, true, false, Option, none, some, List, [], ◌∷◌, ltb, leb,
}
use proxy_harv.Text.{Bytes, codes}
use proxy_harv.Text.Number.{ℤ, pos, negsuc}
use proxy_harv.Runtime.{Runtime}
use proxy_harv.Floats.{Floats}

abbrev count : ℤ → ℕ
count (pos n) = n
count (negsuc n) = 0

-- Natural numbers in place of floats.
abbrev pub toy : Floats
toy = record {
  F = ℕ;
  of_int = count;
  add = λ a b. a + b;
  sub = λ a b. a - b;
  mul = λ a b. a * b;
  div = λ a b. a / b;
  lt = ltb;
  le = leb;
  truncate = pos;
  parse = λ s. some 1;
}

abbrev pub toy_rt : Runtime
toy_rt = record { lower_wide = λ s. s; sha256 = λ s. s; json_object = λ s. none }
