-- ===== src/Base/Words.antt =====
-- Machine words as native numbers: bounds and saturating arithmetic.
use Prim.Native.Nat.{ℕ, ◌+◌, ◌-◌, ◌^◌, min}

abbrev pub u32_max : ℕ
u32_max = 2 ^ 32 - 1

abbrev pub u64_max : ℕ
u64_max = 2 ^ 64 - 1

-- `saturating_add` of u32 and u64. `saturating_sub` is the subtraction of ℕ, which stops at 0.
abbrev pub add_sat32 : ℕ → ℕ → ℕ
add_sat32 a b = min (a + b) u32_max

abbrev pub add_sat64 : ℕ → ℕ → ℕ
add_sat64 a b = min (a + b) u64_max
