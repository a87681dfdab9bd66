-- ===== src/Common/Mods.antt =====
-- Remainders by a number that is not a numeral.
use Prim.Native.Nat.{ℕ, ◌+◌, ◌%◌, ◌<◌}
use mathlib.Core.Logic.{◌≢◌}
use native.Mathlib.Omega.{arith}

pub mod_ne : (c x y : ℕ) → x < y → y < x + c → x % c ≢ y % c
mod_ne c x y lt near e = grind arith
