-- ===== src/Base/Words.antt =====
-- Go's `int` and `int64` as 64-bit patterns in two's complement: `==` compares patterns, `+ 1`
-- wraps, and `<` compares after the sign bit is flipped.
use Prim.Native.Nat.{ℕ, ◌+◌, ◌-◌, ◌%◌, ◌^◌, ◌≤◌, ◌<◌}
use mathlib.Core.Path.{◌≡◌}
use mathlib.Core.Bool.{Bool, true, false}
use native.Mathlib.Omega.{arith}
use bft_mvba.Base.Tests.{ltb, if◌then◌else◌}

abbrev pub Int64 : Type 0
Int64 = ℕ

abbrev pub Int8 : Type 0
Int8 = ℕ

-- `int64(a)` of an 8-bit integer: the sign is extended.
unfoldable pub int64_of_int8 : Int8 → Int64
int64_of_int8 a = if ltb a (2 ^ 7) then a else a + (2 ^ 64 - 2 ^ 8)

-- `a + 1`
unfoldable pub inc : Int64 → Int64
inc a = (a + 1) % 2 ^ 64

-- `a < b`
unfoldable pub slt : Int64 → Int64 → Bool
slt a b = ltb ((a + 2 ^ 63) % 2 ^ 64) ((b + 2 ^ 63) % 2 ^ 64)

-- On patterns of non-negative integers the signed order is the order of the numbers.
pub slt-ltb : (a b : ℕ) → a < 2 ^ 63 → b < 2 ^ 63 → slt a b ≡ ltb a b
unfolding slt
slt-ltb a b p q = ground arith

pub slt_trans : (a b c : ℕ) → slt a b ≡ true → slt b c ≡ true → slt a c ≡ true
unfolding slt
slt_trans a b c h k = ground arith

pub inc-small : (a : ℕ) → a < 2 ^ 63 → inc a ≡ a + 1
unfolding inc
inc-small a h = omega arith

pub slt-zero_pos : (a : ℕ) → a < 2 ^ 63 → slt a 0 ≡ false
unfolding slt
slt-zero_pos a h = ground arith

pub slt-zero_neg : (a : ℕ) → 2 ^ 63 ≤ a → a < 2 ^ 64 → slt a 0 ≡ true
unfolding slt
slt-zero_neg a h k = ground arith

pub slt-between : (i j k : Int64) → slt i j ≡ true → slt i k ≡ false → slt k j ≡ true
unfolding slt
slt-between i j k h g = ground arith
