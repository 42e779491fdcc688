-- ===== src/MipsInterp/Bounds.antt =====
-- What every interpreted instruction keeps: register 0 is zero, and the integer registers are
-- numbers of 64 bits.
use n64modern_runtime.Base.{
  ℕ, ◌+◌, ◌-◌, ◌/◌, ◌%◌, ◌^◌, ◌<◌, Bool, true, false, ◌&&◌, arith, ◌==◌, if_cases,
}
use n64modern_runtime.Base.Bits.{u16, u32}
use native.Mathlib.Nat.{div-le_self}
use n64modern_runtime.Base.Digits.{bit_and_bound, bit_or_bound, bit_xor_bound}
use n64modern_runtime.MipsInterp.Words.{u64, sx32, sar64, from_bool}
use n64modern_runtime.MipsInterp.Opcodes.{
  Alu, Immediate, Load, srlv, sra, xor, srl, or, nor, slt, dsrav, dsllv, dsra32, dsubu, dsrlv,
  dsll32, dsrl32, dadd, subu, sll, addu, mflo, dsll, dsrl, srav, mfhi, add, sub, dsub, sllv, dsra,
  sltu, daddu, and, addi, daddi, addiu, andi, daddiu, lui, sltiu, ori, xori, slti, lwu, lb, ld, lwr,
  lbu, lwl, ldr, ldl, lw, ll, lh, lhu,
}
use n64modern_runtime.MipsInterp.Machine.{Platform}
use n64modern_runtime.MipsInterp.Alu.{
  alu_value, Quotient, div_value, divu_value, imm_value, quotient,
}
use n64modern_runtime.MipsInterp.Exec.{load_value}

abbrev pub Fits : ℕ → Type 0
Fits v = v < 2 ^ 64

pub u64-Fits : (n : ℕ) → Fits (u64 n)
u64-Fits n = omega arith

pub sx32-Fits : (n : ℕ) → Fits (sx32 n)
sx32-Fits n = ground arith

quot-Fits : (n d : ℕ) → Fits n → Fits (n / d)
quot-Fits n d h = omega (arith, h, div-le_self n d)

sar64-Fits : (v k : ℕ) → Fits v → Fits (sar64 v k)
sar64-Fits v k h = ground (arith, quot-Fits v (2 ^ k) h)

from_bool-Fits : (b : Bool) → Fits (from_bool b)
from_bool-Fits true = omega arith
from_bool-Fits false = omega arith

pub alu_value-Fits :
    (o : Alu) (sa s t hi lo : ℕ)
    → Fits s
    → Fits t
    → Fits hi
    → Fits lo
    → Fits (alu_value o sa s t hi lo)
unfolding alu_value
alu_value-Fits sll sa s t hi lo p q u v = sx32-Fits _
alu_value-Fits srl sa s t hi lo p q u v = sx32-Fits _
alu_value-Fits sra sa s t hi lo p q u v = sx32-Fits _
alu_value-Fits sllv sa s t hi lo p q u v = sx32-Fits _
alu_value-Fits srlv sa s t hi lo p q u v = sx32-Fits _
alu_value-Fits srav sa s t hi lo p q u v = sx32-Fits _
alu_value-Fits mfhi sa s t hi lo p q u v = u
alu_value-Fits mflo sa s t hi lo p q u v = v
alu_value-Fits add sa s t hi lo p q u v = sx32-Fits _
alu_value-Fits addu sa s t hi lo p q u v = sx32-Fits _
alu_value-Fits sub sa s t hi lo p q u v = sx32-Fits _
alu_value-Fits subu sa s t hi lo p q u v = sx32-Fits _
alu_value-Fits and sa s t hi lo p q u v = bit_and_bound 64 s t p q
alu_value-Fits or sa s t hi lo p q u v = bit_or_bound 64 s t p q
alu_value-Fits xor sa s t hi lo p q u v = bit_xor_bound 64 s t p q
alu_value-Fits nor sa s t hi lo p q u v = omega arith
alu_value-Fits slt sa s t hi lo p q u v = from_bool-Fits _
alu_value-Fits sltu sa s t hi lo p q u v = from_bool-Fits _
alu_value-Fits dadd sa s t hi lo p q u v = u64-Fits _
alu_value-Fits daddu sa s t hi lo p q u v = u64-Fits _
alu_value-Fits dsub sa s t hi lo p q u v = u64-Fits _
alu_value-Fits dsubu sa s t hi lo p q u v = u64-Fits _
alu_value-Fits dsll sa s t hi lo p q u v = u64-Fits _
alu_value-Fits dsrl sa s t hi lo p q u v = quot-Fits t _ q
alu_value-Fits dsra sa s t hi lo p q u v = sar64-Fits t sa q
alu_value-Fits dsll32 sa s t hi lo p q u v = u64-Fits _
alu_value-Fits dsrl32 sa s t hi lo p q u v = quot-Fits t _ q
alu_value-Fits dsra32 sa s t hi lo p q u v = sar64-Fits t (sa + 32) q
alu_value-Fits dsllv sa s t hi lo p q u v = u64-Fits _
alu_value-Fits dsrlv sa s t hi lo p q u v = quot-Fits t _ q
alu_value-Fits dsrav sa s t hi lo p q u v = sar64-Fits t (s % 64) q

pub imm_value-Fits : (o : Immediate) (s i : ℕ) → Fits s → Fits (imm_value o s i)
unfolding imm_value
imm_value-Fits addi s i p = sx32-Fits _
imm_value-Fits addiu s i p = sx32-Fits _
imm_value-Fits slti s i p = from_bool-Fits _
imm_value-Fits sltiu s i p = from_bool-Fits _
imm_value-Fits andi s i p = bit_and_bound 64 s (u16 i) p (omega arith)
imm_value-Fits ori s i p = bit_or_bound 64 s (u16 i) p (omega arith)
imm_value-Fits xori s i p = bit_xor_bound 64 s (u16 i) p (omega arith)
imm_value-Fits lui s i p = sx32-Fits _
imm_value-Fits daddi s i p = u64-Fits _
imm_value-Fits daddiu s i p = u64-Fits _

pub load_value-Fits :
    (P : Platform) (o : Load) (mem : P.Mem) (old k a : ℕ) → Fits (load_value P o mem old k a)
unfolding load_value
load_value-Fits P lb mem old k a = ground arith
load_value-Fits P lh mem old k a = ground arith
load_value-Fits P lw mem old k a = sx32-Fits _
load_value-Fits P lbu mem old k a = omega arith
load_value-Fits P lhu mem old k a = omega arith
load_value-Fits P lwu mem old k a = omega arith
load_value-Fits P ld mem old k a = u64-Fits _
load_value-Fits P lwl mem old k a = u64-Fits _
load_value-Fits P lwr mem old k a = u64-Fits _
load_value-Fits P ldl mem old k a = u64-Fits _
load_value-Fits P ldr mem old k a = u64-Fits _
load_value-Fits P ll mem old k a = sx32-Fits _

-- The registers that a division writes.
abbrev pub QuotientFits : Quotient → Type 0
QuotientFits (quotient hi lo) = Fits hi × Fits lo
QuotientFits _ = Unit

pub div_value-QuotientFits : (s t : ℕ) → QuotientFits (div_value s t)
unfolding div_value
div_value-QuotientFits s t =
    if_cases QuotientFits (u32 t == 0) (λ _. tt)
      (λ _.
        if_cases QuotientFits ((u32 s == 2 ^ 31) && (u32 t == 2 ^ 32 - 1)) (λ _. tt)
          (λ _. (sx32-Fits _, sx32-Fits _)))

pub divu_value-QuotientFits : (s t : ℕ) → QuotientFits (divu_value s t)
unfolding divu_value
divu_value-QuotientFits s t =
    if_cases QuotientFits (u32 t == 0) (λ _. tt) (λ _. (sx32-Fits _, sx32-Fits _))
