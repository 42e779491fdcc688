-- ===== src/MipsInterp/Cop1.antt =====
-- librecomp/src/mips_interp.cpp: the COP1 block of `exec_noncontrol`. The formats are S (0x10),
-- D (0x11), W (0x14) and L (0x15).
use n64modern_runtime.Base.{
  ℕ, ◌+◌, ◌-◌, ◌%◌, ◌^◌, Bool, false, ◌||◌, Option, none, some, List, [], ◌∷◌, leb, ◌==◌,
  if◌then◌else◌,
}
use n64modern_runtime.Base.Bits.{bit}
use n64modern_runtime.MipsInterp.Words.{sx32}
use n64modern_runtime.MipsInterp.Opcodes.{rs_field, rt_field, rd_field, sa_field, fn_field, case_of}
use n64modern_runtime.MipsInterp.Machine.{
  FloatBinary, FloatUnary, Rounding, Platform, Machine, update, set_r, u32l, set_u32l, set_u64,
  fsub, fdiv, fadd, fmul, fabs, fneg, fsqrt, floor, trunc, ceil, round,
}

-- The functions of a compute format; `compare` stands for those from 0x30 on.
pub data FloatFunction : Type 0 where
  binary : FloatBinary → FloatFunction
  unary : FloatUnary → FloatFunction
  rounded : Rounding → FloatFunction
  mov cvt_s cvt_d cvt_w : FloatFunction

abbrev pub float_cases : List (ℕ × FloatFunction)
float_cases =
    (0x00, binary fadd)
    ∷ (0x01, binary fsub)
    ∷ (0x02, binary fmul)
    ∷ (0x03, binary fdiv)
    ∷ (0x04, unary fsqrt)
    ∷ (0x05, unary fabs)
    ∷ (0x06, mov)
    ∷ (0x07, unary fneg)
    ∷ (0x20, cvt_s)
    ∷ (0x21, cvt_d)
    ∷ (0x24, cvt_w)
    ∷ (0x0D, rounded trunc)
    ∷ (0x0C, rounded round)
    ∷ (0x0E, rounded ceil)
    ∷ (0x0F, rounded floor)
    ∷ []

-- The condition of `c.cond.fmt`.
unfoldable pub condition : ℕ → (lt eq : Bool) → Bool
condition c lt eq =
    if c == 0x2
    then eq
    else if c == 0xC
    then lt
    else if c == 0xE
    then lt || eq
    else if c == 0x1
    then false
    else if c == 0x4
    then lt
    else if c == 0x6
    then lt || eq
    else eq

-- Bit 23 of `cop0_regs[1]`, where the interpreter keeps the condition.
abbrev pub condition_bit : ℕ → Bool
condition_bit x = bit x 23

abbrev pub set_condition_bit : ℕ → Bool → ℕ
set_condition_bit x b =
    if condition_bit x then (if b then x else x - 2 ^ 23) else (if b then x + 2 ^ 23 else x)

module _ {P : Platform} where
  abbrev get_s : Machine P → ℕ → ℕ
  get_s m i = u32l m i

  abbrev get_d : Machine P → ℕ → ℕ
  get_d m i = m.f i

  -- `dbl ? getD(i) : getS(i)`, as a double.
  unfoldable pub as_double : Machine P → Bool → ℕ → ℕ
  unfolding u32l
  as_double m dbl i = if dbl then get_d m i else P.widen (get_s m i)

  unfoldable pub float_function :
      FloatFunction → Machine P → (dbl from_w : Bool) → (ft fs fd : ℕ) → Machine P
  unfolding u32l
  float_function (binary o) m dbl from_w ft fs fd =
      if dbl
      then set_u64 m fd (P.binary_d o (get_d m fs) (get_d m ft))
      else set_u32l m fd (P.binary_s o (get_s m fs) (get_s m ft))
  float_function (unary o) m dbl from_w ft fs fd =
      if dbl
      then set_u64 m fd (P.unary_d o (get_d m fs))
      else set_u32l m fd (P.unary_s o (get_s m fs))
  float_function mov m dbl from_w ft fs fd =
      if dbl then set_u64 m fd (get_d m fs) else set_u32l m fd (get_s m fs)
  float_function cvt_s m dbl from_w ft fs fd =
      set_u32l m fd (if from_w then P.int_to_s (u32l m fs) else P.narrow (as_double m dbl fs))
  float_function cvt_d m dbl from_w ft fs fd =
      set_u64 m fd (if from_w then P.int_to_d (u32l m fs) else as_double m dbl fs)
  float_function cvt_w m dbl from_w ft fs fd = set_u32l m fd (P.to_int (as_double m dbl fs))
  float_function (rounded o) m dbl from_w ft fs fd = set_u32l m fd (
      P.to_int (if dbl then P.rounding_d o (get_d m fs) else P.widen (P.rounding_s o (get_s m fs))))

  unfoldable pub compare_function : Machine P → (dbl : Bool) → (fn ft fs : ℕ) → Machine P
  compare_function m dbl fn ft fs =
      let a = as_double m dbl fs in
      let b = as_double m dbl ft in
      let cond = condition (fn % 16) (P.less a b) (P.equal a b) in
      record m { cop0 = update m.cop0 1 (set_condition_bit (m.cop0 1) cond) }

  -- The formats S, D, W and L. `none`: `exec_noncontrol` falls through to its error.
  unfoldable pub compute_case :
      Option FloatFunction → Machine P → (fmt insn : ℕ) → Option (Machine P)
  compute_case (some o) m fmt insn = some (
      float_function o m (fmt == 0x11) (fmt == 0x14) (rt_field insn) (rd_field insn)
        (sa_field insn))
  compute_case none m fmt insn =
      let fn = fn_field insn in
      if leb 0x30 fn
      then some (compare_function m (fmt == 0x11) fn (rt_field insn) (rd_field insn))
      else none

  abbrev pub compute : Machine P → ℕ → ℕ → Option (Machine P)
  compute m fmt insn = compute_case (case_of (fn_field insn) float_cases) m fmt insn

  unfoldable pub exec_cop1 : Machine P → ℕ → Option (Machine P)
  exec_cop1 m insn =
      let fmt = rs_field insn in
      let rt = rt_field insn in
      let fs = rd_field insn in
      if fmt == 0x00
      then some (set_r m rt (sx32 (u32l m fs)))
      else if fmt == 0x01
      then some (set_r m rt (m.f fs))
      else if fmt == 0x02
      then some (set_r m rt (sx32 (m.cop0 0)))
      else if fmt == 0x04
      then some (set_u32l m fs (m.r rt))
      else if fmt == 0x05
      then some (set_u64 m fs (m.r rt))
      else if fmt == 0x06
      then some m
      else if (fmt == 0x10) || (fmt == 0x11) || (fmt == 0x14) || (fmt == 0x15)
      then compute m fmt insn
      else none
