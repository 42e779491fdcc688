-- ===== src/MipsInterp/Words.antt =====
-- librecomp/src/mips_interp.cpp: the integer casts and shifts of C++ that the interpreter applies
-- to the 64-bit registers, a register being a number below 2^64.
use n64modern_runtime.Base.{ℕ, ◌+◌, ◌-◌, ◌/◌, ◌%◌, ◌^◌, Bool, ltb, if◌then◌else◌}
use n64modern_runtime.Base.Int.{ℤ, pos_part, neg_part, sub_ℕ, pos, negsuc}

abbrev pub u64 : ℕ → ℕ
u64 n = n % 2 ^ 64

-- `(gpr)(int8_t)`, `(gpr)(int16_t)` and `sx32`.
abbrev pub sx8 : ℕ → ℕ
sx8 n = let b = n % 2 ^ 8 in if ltb b (2 ^ 7) then b else b + (2 ^ 64 - 2 ^ 8)

abbrev pub sx16 : ℕ → ℕ
sx16 n = let h = n % 2 ^ 16 in if ltb h (2 ^ 15) then h else h + (2 ^ 64 - 2 ^ 16)

abbrev pub sx32 : ℕ → ℕ
sx32 n = let w = n % 2 ^ 32 in if ltb w (2 ^ 31) then w else w + (2 ^ 64 - 2 ^ 32)

-- `(int32_t)(uint32_t)v` and `(int64_t)v`, as integers.
abbrev pub s32 : ℕ → ℤ
s32 v = let w = v % 2 ^ 32 in if ltb w (2 ^ 31) then pos w else negsuc (2 ^ 32 - 1 - w)

abbrev pub s64 : ℕ → ℤ
s64 v = if ltb v (2 ^ 63) then pos v else negsuc (2 ^ 64 - 1 - v)

-- `>>` of a signed value: what is shifted in repeats the sign.
abbrev pub sar32 : ℕ → ℕ → ℕ
sar32 v k =
    let w = v % 2 ^ 32 in
    if ltb w (2 ^ 31) then w / 2 ^ k else 2 ^ 32 - 1 - (2 ^ 32 - 1 - w) / 2 ^ k

abbrev pub sar64 : ℕ → ℕ → ℕ
sar64 v k = if ltb v (2 ^ 63) then v / 2 ^ k else 2 ^ 64 - 1 - (2 ^ 64 - 1 - v) / 2 ^ k

-- a - b, of 32 and of 64 bits.
abbrev pub sub32 : ℕ → ℕ → ℕ
sub32 a b = (a % 2 ^ 32 + (2 ^ 32 - b % 2 ^ 32)) % 2 ^ 32

abbrev pub sub64 : ℕ → ℕ → ℕ
sub64 a b = (a + (2 ^ 64 - b)) % 2 ^ 64

abbrev pub from_bool : Bool → ℕ
from_bool b = if b then 1 else 0

-- The quotient of two integers towards zero; by zero it stands for nothing.
abbrev pub quot : ℤ → ℤ → ℤ
quot a b =
    let d = pos_part b + neg_part b in
    if ltb 0 (neg_part b)
    then sub_ℕ (neg_part a / d) (pos_part a / d)
    else sub_ℕ (pos_part a / d) (neg_part a / d)

-- `(uint32_t)` of an `int32_t`.
abbrev pub wrap32 : ℤ → ℕ
wrap32 (pos n) = n % 2 ^ 32
wrap32 (negsuc n) = 2 ^ 32 - 1 - n % 2 ^ 32
