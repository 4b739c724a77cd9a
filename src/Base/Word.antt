-- ===== src/Base/Word.antt =====
-- `garry_i32` as its two's complement pattern below 2 ^ 32: wrapping sums and signed comparison.
use Prim.Native.Nat.{ℕ, ◌+◌, ◌-◌, ◌*◌, ◌%◌, ◌^◌, ◌<◌}
use mathlib.Core.Path.{◌≡◌}
use mathlib.Core.Bool.{Bool}
use native.Mathlib.Omega.{arith}
use garry.Base.Tests.{ltb, leb}

abbrev pub add32 : ℕ → ℕ → ℕ
add32 a b = (a + b) % 2 ^ 32

abbrev pub mul32 : ℕ → ℕ → ℕ
mul32 a b = (a * b) % 2 ^ 32

abbrev pub sub32 : ℕ → ℕ → ℕ
sub32 a b = (a + 2 ^ 32 - b) % 2 ^ 32

-- The pattern with its sign bit turned, by which signed numbers are ordered.
abbrev pub biased : ℕ → ℕ
biased a = (a + 2 ^ 31) % 2 ^ 32

-- signed `a < b` and `a <= b`
abbrev pub slt : ℕ → ℕ → Bool
slt a b = ltb (biased a) (biased b)

abbrev pub sle : ℕ → ℕ → Bool
sle a b = leb (biased a) (biased b)

-- the pattern of -1
abbrev pub minus_one : ℕ
minus_one = 0xffff_ffff

pub slt_small : (a b : ℕ) → a < 2 ^ 31 → b < 2 ^ 31 → slt a b ≡ ltb a b
slt_small a b ha hb = ground arith

pub sle_small : (a b : ℕ) → a < 2 ^ 31 → b < 2 ^ 31 → sle a b ≡ leb a b
sle_small a b ha hb = ground arith
