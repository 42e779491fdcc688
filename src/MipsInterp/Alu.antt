-- ===== src/MipsInterp/Alu.antt =====
-- librecomp/src/mips_interp.cpp: the values that `exec_noncontrol` computes from registers alone.
use n64modern_runtime.Base.{
  ℕ, ◌+◌, ◌-◌, ◌*◌, ◌/◌, ◌%◌, ◌^◌, bit_and, bit_or, bit_xor, ◌&&◌, ltb, ◌==◌, if◌then◌else◌,
}
use n64modern_runtime.Base.Bits.{u16, u32}
use n64modern_runtime.Base.Int.{◌%ℤ◌, ltb_ℤ}
use n64modern_runtime.MipsInterp.Words.{
  u64, sx16, sx32, s32, s64, sar32, sar64, sub32, sub64, from_bool, quot, wrap32,
}
use n64modern_runtime.MipsInterp.Opcodes.{
  Alu, Immediate, dsra, add, xor, mflo, or, and, dsll, dadd, nor, mfhi, dsrl32, daddu, dsrav, sll,
  addu, dsub, srav, srlv, dsra32, dsllv, dsrlv, sltu, srl, dsll32, dsrl, sllv, slt, dsubu, sub, sra,
  subu, ori, andi, addiu, daddiu, addi, slti, lui, daddi, xori, sltiu,
}

-- `s` and `t` are `R[rs]` and `R[rt]`.
unfoldable pub alu_value : Alu → (sa s t hi lo : ℕ) → ℕ
alu_value sll sa s t hi lo = sx32 (u32 t * 2 ^ sa)
alu_value srl sa s t hi lo = sx32 (u32 t / 2 ^ sa)
alu_value sra sa s t hi lo = sx32 (sar32 t sa)
alu_value sllv sa s t hi lo = sx32 (u32 t * 2 ^ (s % 32))
alu_value srlv sa s t hi lo = sx32 (u32 t / 2 ^ (s % 32))
alu_value srav sa s t hi lo = sx32 (sar32 t (s % 32))
alu_value mfhi sa s t hi lo = hi
alu_value mflo sa s t hi lo = lo
alu_value add sa s t hi lo = sx32 (u32 s + u32 t)
alu_value addu sa s t hi lo = sx32 (u32 s + u32 t)
alu_value sub sa s t hi lo = sx32 (sub32 s t)
alu_value subu sa s t hi lo = sx32 (sub32 s t)
alu_value and sa s t hi lo = bit_and s t
alu_value or sa s t hi lo = bit_or s t
alu_value xor sa s t hi lo = bit_xor s t
alu_value nor sa s t hi lo = 2 ^ 64 - 1 - bit_or s t
alu_value slt sa s t hi lo = from_bool (ltb_ℤ (s64 s) (s64 t))
alu_value sltu sa s t hi lo = from_bool (ltb s t)
alu_value dadd sa s t hi lo = u64 (s + t)
alu_value daddu sa s t hi lo = u64 (s + t)
alu_value dsub sa s t hi lo = sub64 s t
alu_value dsubu sa s t hi lo = sub64 s t
alu_value dsll sa s t hi lo = u64 (t * 2 ^ sa)
alu_value dsrl sa s t hi lo = t / 2 ^ sa
alu_value dsra sa s t hi lo = sar64 t sa
alu_value dsll32 sa s t hi lo = u64 (t * 2 ^ (sa + 32))
alu_value dsrl32 sa s t hi lo = t / 2 ^ (sa + 32)
alu_value dsra32 sa s t hi lo = sar64 t (sa + 32)
alu_value dsllv sa s t hi lo = u64 (t * 2 ^ (s % 64))
alu_value dsrlv sa s t hi lo = t / 2 ^ (s % 64)
alu_value dsrav sa s t hi lo = sar64 t (s % 64)

-- The values for `hi` and `lo`. `mult`: the product of two `int32_t` as an `int64_t` has, modulo
-- 2^64, the bits of the product of the sign-extended words.
abbrev pub mult_value : ℕ → ℕ → ℕ × ℕ
mult_value s t = let p = u64 (sx32 s * sx32 t) in (sx32 (p / 2 ^ 32), sx32 p)

abbrev pub multu_value : ℕ → ℕ → ℕ × ℕ
multu_value s t = let p = u32 s * u32 t in (sx32 (p / 2 ^ 32), sx32 p)

-- What a division leaves: `hi` and `lo` as they are for a zero divisor, or new values. The quotient
-- of -2^31 by -1 is no `int32_t`: C++ gives that division no meaning.
pub data Quotient : Type 0 where
  untouched undefined_quotient : Quotient
  quotient : (hi lo : ℕ) → Quotient

unfoldable pub div_value : ℕ → ℕ → Quotient
div_value s t =
    if u32 t == 0
    then untouched
    else if (u32 s == 2 ^ 31) && (u32 t == 2 ^ 32 - 1)
    then undefined_quotient
    else quotient (sx32 (wrap32 (s32 s %ℤ s32 t))) (sx32 (wrap32 (quot (s32 s) (s32 t))))

unfoldable pub divu_value : ℕ → ℕ → Quotient
divu_value s t =
    if u32 t == 0 then untouched else quotient (sx32 (u32 s % u32 t)) (sx32 (u32 s / u32 t))

-- `i` holds the low half of the instruction: `uimm`, and `simm` when it is sign-extended.
unfoldable pub imm_value : Immediate → (s i : ℕ) → ℕ
imm_value addi s i = sx32 (u32 s + u32 (sx16 i))
imm_value addiu s i = sx32 (u32 s + u32 (sx16 i))
imm_value slti s i = from_bool (ltb_ℤ (s64 s) (s64 (sx16 i)))
imm_value sltiu s i = from_bool (ltb s (sx16 i))
imm_value andi s i = bit_and s (u16 i)
imm_value ori s i = bit_or s (u16 i)
imm_value xori s i = bit_xor s (u16 i)
imm_value lui s i = sx32 (u16 i * 2 ^ 16)
imm_value daddi s i = u64 (s + sx16 i)
imm_value daddiu s i = u64 (s + sx16 i)
