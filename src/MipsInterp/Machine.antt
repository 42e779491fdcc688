-- ===== src/MipsInterp/Machine.antt =====
-- librecomp/src/mips_interp.cpp: what an instruction works on. The memory macros and the registers'
-- layout are in the recompiler's `recomp.h`, and the arithmetic of floats is the host's: neither is
-- in this repository, and they enter as an interface. `host` is the runtime's own state.
use n64modern_runtime.Base.{ℕ, ◌+◌, ◌*◌, ◌/◌, ◌^◌, Bool, ◌==◌, if◌then◌else◌}
use n64modern_runtime.Base.Bits.{u32}
use n64modern_runtime.MipsInterp.Words.{u64}

pub data FloatBinary : Type 0 where
  fadd fsub fmul fdiv : FloatBinary

pub data FloatUnary : Type 0 where
  fsqrt fabs fneg : FloatUnary

pub data Rounding : Type 0 where
  trunc round ceil floor : Rounding

-- Floats and doubles are their bits. An address is an offset and a register, as in the macros.
pub record Platform : Type 1 where
  pub Mem : Type 0
  pub Host : Type 0
  pub mem_b : Mem → ℕ → ℕ → ℕ
  pub mem_h : Mem → ℕ → ℕ → ℕ
  pub mem_w : Mem → ℕ → ℕ → ℕ
  pub mem_bu : Mem → ℕ → ℕ → ℕ
  pub mem_hu : Mem → ℕ → ℕ → ℕ
  pub mem_wu : Mem → ℕ → ℕ → ℕ
  pub load_doubleword : Mem → ℕ → ℕ → ℕ
  pub set_mem_b : Mem → ℕ → ℕ → ℕ → Mem
  pub set_mem_h : Mem → ℕ → ℕ → ℕ → Mem
  pub set_mem_w : Mem → ℕ → ℕ → ℕ → Mem
  pub set_doubleword : Mem → ℕ → ℕ → ℕ → Mem
  -- the old value of the register, the offset, the address; the address before the value for stores
  pub do_lwl : Mem → ℕ → ℕ → ℕ → ℕ
  pub do_lwr : Mem → ℕ → ℕ → ℕ → ℕ
  pub do_ldl : Mem → ℕ → ℕ → ℕ → ℕ
  pub do_ldr : Mem → ℕ → ℕ → ℕ → ℕ
  pub do_swl : Mem → ℕ → ℕ → ℕ → Mem
  pub do_swr : Mem → ℕ → ℕ → ℕ → Mem
  pub do_sdl : Mem → ℕ → ℕ → ℕ → Mem
  pub do_sdr : Mem → ℕ → ℕ → ℕ → Mem
  pub binary_s : FloatBinary → ℕ → ℕ → ℕ
  pub binary_d : FloatBinary → ℕ → ℕ → ℕ
  pub unary_s : FloatUnary → ℕ → ℕ
  pub unary_d : FloatUnary → ℕ → ℕ
  pub rounding_s : Rounding → ℕ → ℕ
  pub rounding_d : Rounding → ℕ → ℕ
  -- `(double)` of a float, `(float)` of a double, both of an `int32_t`, and `(int32_t)` of a double
  pub widen : ℕ → ℕ
  pub narrow : ℕ → ℕ
  pub int_to_s : ℕ → ℕ
  pub int_to_d : ℕ → ℕ
  pub to_int : ℕ → ℕ
  pub less : ℕ → ℕ → Bool
  pub equal : ℕ → ℕ → Bool

-- The parts of `recomp_context` and RDRAM that the interpreter reaches: `r` and `f` are the
-- registers by number.
pub record Machine (P : Platform) : Type 0 where
  pub r : ℕ → ℕ
  pub f : ℕ → ℕ
  pub cop0 : ℕ → ℕ
  pub hi : ℕ
  pub lo : ℕ
  pub mem : P.Mem
  pub host : P.Host

abbrev pub update : (ℕ → ℕ) → ℕ → ℕ → ℕ → ℕ
update g i v k = if k == i then v else g k

module _ {P : Platform} where
  -- `setR`
  unfoldable pub set_r : Machine P → ℕ → ℕ → Machine P
  set_r m i v = if i == 0 then m else record m { r = update m.r i v }

  -- `F[i].u32l` and `F[i].fl` are the low half of the register, `F[i].u64` and `F[i].d` all of it.
  unfoldable pub u32l : Machine P → ℕ → ℕ
  u32l m i = u32 (m.f i)

  unfoldable pub set_u32l : Machine P → ℕ → ℕ → Machine P
  set_u32l m i v = record m { f = update m.f i (m.f i / 2 ^ 32 * 2 ^ 32 + u32 v) }

  unfoldable pub set_u64 : Machine P → ℕ → ℕ → Machine P
  set_u64 m i v = record m { f = update m.f i (u64 v) }
