-- ===== src/MathRoutines.antt =====
-- librecomp/src/math_routines.cpp: the 64-bit integer helpers of libgcc. A `gpr` is a 64-bit
-- register; the guest's 32-bit values are in it sign-extended. The conversions from and to floats
-- are not modelled.
pub mod Division
use n64modern_runtime.Base.{
  ℕ, ◌+◌, ◌-◌, ◌*◌, ◌/◌, ◌%◌, ◌^◌, Option, none, some, ltb, ◌==◌, if◌then◌else◌,
}

abbrev two_64 : ℕ
two_64 = 2 ^ 64

-- `static_cast<int32_t>` into a 64-bit register.
abbrev pub sign_extend : ℕ → ℕ
sign_extend x = let w = x % 2 ^ 32 in if ltb w (2 ^ 31) then w else w + (2 ^ 64 - 2 ^ 32)

-- `(hi << 32) | (lo & 0xFFFFFFFF)`
unfoldable pub join64 : ℕ → ℕ → ℕ
join64 hi lo = hi * 2 ^ 32 % 2 ^ 64 + lo % 2 ^ 32

-- The registers r2 and r3.
unfoldable pub return64 : ℕ → ℕ × ℕ
return64 value = (sign_extend (value / 2 ^ 32), sign_extend value)

-- `none`: a division by zero.
unfoldable pub udivdi3 : ℕ → ℕ → ℕ → ℕ → Option (ℕ × ℕ)
udivdi3 a b c d = let y = join64 c d in if y == 0 then none else some (return64 (join64 a b / y))

unfoldable pub umoddi3 : ℕ → ℕ → ℕ → ℕ → Option (ℕ × ℕ)
umoddi3 a b c d = let y = join64 c d in if y == 0 then none else some (return64 (join64 a b % y))

unfoldable pub ll_mul : ℕ → ℕ → ℕ → ℕ → ℕ × ℕ
ll_mul a b c d = return64 (join64 a b * join64 c d % 2 ^ 64)
