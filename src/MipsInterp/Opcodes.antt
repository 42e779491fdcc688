-- ===== src/MipsInterp/Opcodes.antt =====
-- librecomp/src/mips_interp.cpp: the instructions that `exec_noncontrol` knows, by the switch they
-- stand in, and the fields of an instruction word.
use n64modern_runtime.Base.{
  ℕ, ◌/◌, ◌%◌, ◌^◌, Option, none, some, List, [], ◌∷◌, ◌==◌, if◌then◌else◌,
}

abbrev pub op_field : ℕ → ℕ
op_field insn = insn / 2 ^ 26

abbrev pub rs_field : ℕ → ℕ
rs_field insn = insn / 2 ^ 21 % 32

abbrev pub rt_field : ℕ → ℕ
rt_field insn = insn / 2 ^ 16 % 32

abbrev pub rd_field : ℕ → ℕ
rd_field insn = insn / 2 ^ 11 % 32

abbrev pub sa_field : ℕ → ℕ
sa_field insn = insn / 2 ^ 6 % 32

abbrev pub fn_field : ℕ → ℕ
fn_field insn = insn % 64

-- The SPECIAL functions that write a value computed from the registers to `rd`.
pub data Alu : Type 0 where
  sll srl sra sllv srlv srav mfhi mflo add addu sub subu and or xor nor slt sltu : Alu
  dadd daddu dsub dsubu dsll dsrl dsra dsll32 dsrl32 dsra32 dsllv dsrlv dsrav : Alu

pub data Special : Type 0 where
  alu : Alu → Special
  mthi mtlo mult multu div divu movn movz : Special
  -- `sync` and the trap family
  nothing : Special

pub data Immediate : Type 0 where
  addi addiu slti sltiu andi ori xori lui daddi daddiu : Immediate

pub data Load : Type 0 where
  lb lh lw lbu lhu lwu ld lwl lwr ldl ldr ll : Load

pub data Store : Type 0 where
  sb sh sw sd swl swr sdl sdr : Store

-- The opcodes; `cache` and COP0 do nothing.
pub data Opcode : Type 0 where
  special : Opcode
  immediate : Immediate → Opcode
  load : Load → Opcode
  store : Store → Opcode
  sc lwc1 ldc1 swc1 sdc1 cop_1 cache cop_0 : Opcode

-- The `case` whose label is `n`.
unfoldable pub case_of {ℓ} : {A : Type ℓ} → ℕ → List (ℕ × A) → Option A
case_of n [] = none
case_of n ((k, a) ∷ cases) = let rest = case_of n cases in if n == k then some a else rest

abbrev pub special_cases : List (ℕ × Special)
special_cases =
    (0x00, alu sll)
    ∷ (0x02, alu srl)
    ∷ (0x03, alu sra)
    ∷ (0x04, alu sllv)
    ∷ (0x06, alu srlv)
    ∷ (0x07, alu srav)
    ∷ (0x10, alu mfhi)
    ∷ (0x11, mthi)
    ∷ (0x12, alu mflo)
    ∷ (0x13, mtlo)
    ∷ (0x18, mult)
    ∷ (0x19, multu)
    ∷ (0x1A, div)
    ∷ (0x1B, divu)
    ∷ (0x20, alu add)
    ∷ (0x21, alu addu)
    ∷ (0x22, alu sub)
    ∷ (0x23, alu subu)
    ∷ (0x24, alu and)
    ∷ (0x25, alu or)
    ∷ (0x26, alu xor)
    ∷ (0x27, alu nor)
    ∷ (0x2A, alu slt)
    ∷ (0x2B, alu sltu)
    ∷ (0x2C, alu dadd)
    ∷ (0x2D, alu daddu)
    ∷ (0x2E, alu dsub)
    ∷ (0x2F, alu dsubu)
    ∷ (0x38, alu dsll)
    ∷ (0x3A, alu dsrl)
    ∷ (0x3B, alu dsra)
    ∷ (0x3C, alu dsll32)
    ∷ (0x3E, alu dsrl32)
    ∷ (0x3F, alu dsra32)
    ∷ (0x14, alu dsllv)
    ∷ (0x16, alu dsrlv)
    ∷ (0x17, alu dsrav)
    ∷ (0x0B, movn)
    ∷ (0x0A, movz)
    ∷ (0x0F, nothing)
    ∷ (0x30, nothing)
    ∷ (0x31, nothing)
    ∷ (0x32, nothing)
    ∷ (0x33, nothing)
    ∷ (0x34, nothing)
    ∷ (0x36, nothing)
    ∷ []

abbrev pub opcode_cases : List (ℕ × Opcode)
opcode_cases =
    (0x00, special)
    ∷ (0x08, immediate addi)
    ∷ (0x09, immediate addiu)
    ∷ (0x0A, immediate slti)
    ∷ (0x0B, immediate sltiu)
    ∷ (0x0C, immediate andi)
    ∷ (0x0D, immediate ori)
    ∷ (0x0E, immediate xori)
    ∷ (0x0F, immediate lui)
    ∷ (0x18, immediate daddi)
    ∷ (0x19, immediate daddiu)
    ∷ (0x20, load lb)
    ∷ (0x21, load lh)
    ∷ (0x23, load lw)
    ∷ (0x24, load lbu)
    ∷ (0x25, load lhu)
    ∷ (0x27, load lwu)
    ∷ (0x37, load ld)
    ∷ (0x28, store sb)
    ∷ (0x29, store sh)
    ∷ (0x2B, store sw)
    ∷ (0x3F, store sd)
    ∷ (0x22, load lwl)
    ∷ (0x26, load lwr)
    ∷ (0x2A, store swl)
    ∷ (0x2E, store swr)
    ∷ (0x1A, load ldl)
    ∷ (0x1B, load ldr)
    ∷ (0x2C, store sdl)
    ∷ (0x2D, store sdr)
    ∷ (0x30, load ll)
    ∷ (0x38, sc)
    ∷ (0x2F, cache)
    ∷ (0x31, lwc1)
    ∷ (0x35, ldc1)
    ∷ (0x39, swc1)
    ∷ (0x3D, sdc1)
    ∷ (0x11, cop_1)
    ∷ (0x10, cop_0)
    ∷ []

abbrev pub special_function : ℕ → Option Special
special_function insn = case_of (fn_field insn) special_cases
