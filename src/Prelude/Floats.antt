-- ===== src/Prelude/Floats.antt =====
-- `f32` values as their IEEE 754 bit patterns, numbers below 2^32, with the tests the code makes.
use Prim.Native.Nat.{ℕ, ◌+◌, ◌-◌, compare, Ordering}
use mathlib.Core.Bool.{Bool, ◌||◌}
use video_captioner_r.Prelude.Tests.{ltb, leb, ◌==◌, if◌then◌else◌}

-- The patterns of 1.0, of -0.0 and of -1.0.
abbrev pub f32_one : ℕ
f32_one = 0x3F800000

abbrev pub f32_negative_zero : ℕ
f32_negative_zero = 0x80000000

abbrev pub f32_minus_one : ℕ
f32_minus_one = 0xBF800000

-- `(0.0..=1.0).contains(&x)`: the patterns from 0.0 to 1.0 are in order, and -0.0 equals 0.0.
abbrev pub f32_in_unit : ℕ → Bool
f32_in_unit x = leb x f32_one || x == f32_negative_zero

-- The key by which `f32::total_cmp` orders: positive patterns above the negative ones, which are
-- reversed.
abbrev pub f32_key : ℕ → ℕ
f32_key x = if ltb x 2147483648 then 2147483648 + x else 4294967295 - x

abbrev pub f32_total_cmp : ℕ → ℕ → Ordering
f32_total_cmp x y = compare (f32_key x) (f32_key y)
